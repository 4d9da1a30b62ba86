-- ===== src/Redis.antt =====
-- src/redis.h, and the part of `m_send_st2redis` of src/script.C that sends the sums. hiredis and the server
-- behind it are a parameter, and so is the printing of a `double`.
pub mod Reported
mod Tests
use ptf.Prelude.{
  ℕ, ◌-◌, ◌^◌, ◌≡◌, Bool, true, false, Option, none, some, List, [], ◌∷◌, ltb, if◌then◌else◌,
}
use ptf.Prelude.Int.{ℤ}
use ptf.Http.Text.{Text}
use ptf.Text.{codes, text_eq, to_string}
use ptf.Transaction.{Links}
use ptf.Step.{Statistics}
use ptf.Script.{Summary, no_summary, report_loop}

-- What a server answers to "GET", `none` being nil, and what "SET" makes of it.
pub record Server (Db : Type 0) : Type 0 where
  pub get : Text → Db → Option Text
  pub set : Text → Text → Db → Db

-- The documented behaviour: "GET" gives what "SET" has put there last.
pub record ServerLaws {Db : Type 0} (server : Server Db) : Type 0 where
  pub get-set :
      (j k v : Text) (db : Db)
      → server.get k (server.set j v db) ≡ (if text_eq j k then some v else server.get k db)

-- What `redisConnect` gives: NULL, a context with an error, or a connection.
pub data Context : Type 0 where
  null_context failed_context connected : Context

-- `Redis`, with the server
pub record Redis (Db : Type 0) : Type 0 where
  pub context : Context
  pub db : Db

-- `connect`: NULL is no failure here.
unfoldable pub connect : Context → Bool
connect null_context = true
connect failed_context = false
connect connected = true

module _ {Db : Type 0} (server : Server Db) where
  -- `get`; `none` is undefined: without a connection the reply is NULL, and for nil its text is.
  pub get : Text → Redis Db → Option Text
  get key r = elim r.context [ connected ↦ server.get key r.db | _ ↦ none ]

  -- `set`; `none` is undefined. With an error in the context, hiredis does nothing.
  pub set : Text → Text → Redis Db → Option (Redis Db)
  set key value r = elim r.context [
    | null_context ↦ none
    | failed_context ↦ some r
    | connected ↦ some (record r { db = server.set key value r.db })
  ]

  pub set_all : List (Text × Text) → Redis Db → Option (Redis Db)
  unfolding set
  set_all [] r = some r
  set_all ((key, value) ∷ entries) r = elim (set key value r) [
    | none ↦ none
    | some r' ↦ set_all entries r'
  ]

-- `snprintf` of the average with "%f", and `to_string` of a `double`
pub record Printer : Type 0 where
  -- of the duration and the bits of the count
  pub average : ℤ → ℕ → Text
  pub double : ℤ → Text

-- `to_string` of an `int`, of its bits
abbrev pub int_string : ℕ → Text
int_string n = if ltb n (2 ^ 31) then to_string n else b'-' ∷ to_string (2 ^ 32 - n)

-- What is sent, in order
pub entries : Printer → Summary → List (Text × Text)
entries p sum =
    (codes "avg_delay", p.average sum.total_duration sum.total_count)
    ∷ (codes "total_count", int_string sum.total_count)
    ∷ (codes "success_count", int_string sum.success_count)
    ∷ (codes "failure_count", int_string sum.failure_count)
    ∷ (codes "total_duration", p.double sum.total_duration)
    ∷ (codes "success_max", p.double sum.success_max)
    ∷ (codes "success_min", p.double sum.success_min)
    ∷ []

-- `m_send_st2redis`, from the step `first` on; `none` is undefined, or out of fuel.
pub send_to_redis :
    {Db : Type 0}
    → Server Db
    → Printer
    → ℕ
    → (ℕ → Links)
    → (ℕ → Statistics)
    → Option ℕ
    → Redis Db
    → Option (Redis Db)
unfolding report_loop set_all entries
send_to_redis server p fuel links st first r = elim (report_loop fuel links st first no_summary) [
  | none ↦ none
  | some sum ↦ set_all server (entries p sum) r
]
