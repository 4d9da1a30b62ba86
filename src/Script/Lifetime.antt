-- ===== src/Script/Lifetime.antt =====
-- The constructor, the destructor and the setters of src/script.C. No place of the program deletes a script.
use ptf.Prelude.{
  ℕ, zero, suc, ◌+◌, ◌-◌, ◌%◌, ◌^◌, ◌<◌, ◌≡◌, refl, ◌∙◌, Bool, Option, none, some, [], ◌++◌, arith,
}
use ptf.Http.Text.{Text}
use ptf.Text.{codes}
use ptf.Transaction.{Usage, enter_script, exit_script}
use ptf.Redis.{Context, Redis, connect}

-- `TScript`, with the step that `m_script` points to. `none` is NULL, and for `m_transaction` and `m_cSocket` a
-- pointer that nobody has assigned.
record ScriptFields (Db : Type 0) : Type 0 where
  pub file : Text
  pub script_name : Text
  pub first : Option ℕ
  pub redis : Option (Redis Db)
  pub conn_str : Text
  pub usage : Usage
  pub transaction : Option ℕ
  pub socket : Option ℕ

module _ {Db : Type 0} where
  -- The constructor, with what `getenv("PTF_HOME")` and `redisConnect` give, the server, and the counters, which
  -- it does not assign: whether redis is there, and the script. `none` is undefined: a string is made of NULL.
  new_script : Option Text → Context → Db → Usage → Text → Option (Bool × ScriptFields Db)
  new_script none context db u file = none
  new_script (some home) context db u file = some (
    connect context,
    record {
      file = home ++ (codes "/task/" ++ file);
      script_name = file;
      first = none;
      redis = some (record { context = context; db = db });
      conn_str = [];
      usage = u;
      transaction = none;
      socket = none;
    },
  )

  set_transaction : ℕ → ScriptFields Db → ScriptFields Db
  set_transaction t s = record s { transaction = some t }

  set_csocket : ℕ → ScriptFields Db → ScriptFields Db
  set_csocket c s = record s { socket = some c }

  -- The destructor, which leaves the steps: the counters at its end. `none` is a call on a NULL `m_redis`.
  delete_script : ScriptFields Db → Option Usage
  delete_script s = elim s.redis [ none ↦ none | some _ ↦ some (exit_script s.usage) ]

-- So many transactions after one another, each of which enters the script and exits it.
abbrev visits : ℕ → Usage → Usage
visits zero u = u
visits (suc n) u = visits n (exit_script (enter_script u))

-- With counters of 64 bits, each visit is counted, and nobody is left inside.
visits-Counted :
    (n : ℕ) (u : Usage)
    → u.using < 2 ^ 64
    → u.used < 2 ^ 64
    → ((visits n u).using ≡ u.using) × ((visits n u).used ≡ (u.used + n) % 2 ^ 64)
visits-Counted zero u using used = (refl, omega (arith, used))
visits-Counted (suc n) u using used =
    let (a, b) = visits-Counted n (exit_script (enter_script u)) (omega arith) (omega arith) in
    (a ∙ omega (arith, using), b ∙ omega (arith, used))

-- A script that is made with both counters 0, gets a transaction and a connection, is visited by `n` transactions and
-- deleted: the destructor exits it once more than it was entered, so that the users, modulo 2^64, are one
-- fewer than none, and the visits counted are one too many.
delete_script-visits :
    {Db : Type 0} (home file : Text) (context : Context) (db : Db) (t c n : ℕ)
    → (connected : Bool) × (s : ScriptFields Db) × (new_script
          (some home)
          context
          db
          (record { using = 0; used = 0 })
          file
        ≡ some (connected, s))
      × (let s' = set_csocket c (set_transaction t s) in
          delete_script (record s' { usage = visits n s'.usage })
          ≡ some (record { using = 2 ^ 64 - 1; used = (n + 1) % 2 ^ 64 }))
unfolding new_script set_transaction set_csocket delete_script
delete_script-visits home file context db t c n =
    let (a, b) = visits-Counted n (record { using = 0; used = 0 }) (omega arith) (omega arith) in
    let counted : ((0 + n) % 2 ^ 64 + 1) % 2 ^ 64 ≡ (n + 1) % 2 ^ 64 = omega arith in
    (_, _, refl, rw (a, b, counted) refl)
