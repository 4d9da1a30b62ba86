-- ===== src/Redis/Reported.antt =====
-- What can be read from the server after `m_send_st2redis` of src/script.C.
use ptf.Prelude.{
  ℕ, ◌+◌, ◌%◌, ◌^◌, ◌<◌, ◌≡◌, refl, ap, ◌∙◌, lt→ltb, Option, none, some, arith, List, [], ◌∷◌,
  if◌then◌else◌,
}
use ptf.Prelude.Int.{ℤ, pos}
use ptf.Http.Text.{Text}
use ptf.Text.{codes, text_eq, atoi}
use ptf.Steps.Tcp.RoundTrip.{atoi_printed}
use ptf.Step.{Statistics}
use ptf.Script.{links_of, no_summary}
use ptf.Script.Report.{sum_of, report_loop-counts}
use ptf.Redis.{
  Server, ServerLaws, connected, Redis, get, set, set_all, Printer, int_string, entries,
  send_to_redis,
}

-- The last of the entries under a key, or `o`
last_of : Text → List (Text × Text) → Option Text → Option Text
last_of key [] o = o
last_of key ((k, v) ∷ es) o = last_of key es (if text_eq k key then some v else o)

-- A client with a connection
abbrev pub on_line : {Db : Type 0} → Db → Redis Db
on_line db = record { context = connected; db = db }

-- The number that a reader of a key gets
abbrev pub read_number : {Db : Type 0} → Server Db → Redis Db → Text → Option ℤ
read_number server r key = elim (get server key r) [ none ↦ none | some t ↦ some (atoi t) ]

module _ {Db : Type 0} (server : Server Db) (laws : ServerLaws server) where
  set_all-last_of :
      (es : List (Text × Text)) (db : Db)
      → (db' : Db) × (set_all server es (on_line db) ≡ some (on_line db'))
        × ((key : Text) → server.get key db' ≡ last_of key es (server.get key db))
  unfolding set_all set last_of
  set_all-last_of [] db = (db, refl, λ key. refl)
  set_all-last_of ((k, v) ∷ es) db =
      let (db', e, read) = set_all-last_of es (server.set k v db) in
      (db', e, λ key. read key ∙ ap (last_of key es) (laws.get-set k key v db))

  number_of :
      (key : Text) (db : Db) (bits n : ℕ)
      → n < 2 ^ 31
      → bits ≡ (0 + n) % 2 ^ 32
      → server.get key db ≡ some (int_string bits)
      → read_number server (on_line db) key ≡ some (pos n)
  unfolding get
  number_of key db bits n small same e =
      let exact : bits ≡ n = same ∙ omega arith in
      rw (e, exact, lt→ltb n (2 ^ 31) small) (ap some (atoi_printed n small))

  -- With a connection to a server that gives what was set last, on a script of n steps, one at
  -- least: m_send_st2redis ends, and whoever then reads the three counts from the server as numbers
  -- gets the sums of the counts of all steps, if each sum is below 2^31.
  pub send_to_redis-counts :
      (p : Printer) (n : ℕ) (st : ℕ → Statistics) (db : Db)
      → 0 < n
      → sum_of (λ j. (st j).total_count) 0 n < 2 ^ 31
      → sum_of (λ j. (st j).success_count) 0 n < 2 ^ 31
      → sum_of (λ j. (st j).failure_count) 0 n < 2 ^ 31
      → (db' : Db) × (send_to_redis server p (n + 1) (links_of n) st (some 0) (on_line db)
          ≡ some (on_line db'))
        × (read_number server (on_line db') (codes "total_count")
            ≡ some (pos (sum_of (λ j. (st j).total_count) 0 n)))
        × (read_number server (on_line db') (codes "success_count")
            ≡ some (pos (sum_of (λ j. (st j).success_count) 0 n)))
        × (read_number server (on_line db') (codes "failure_count")
            ≡ some (pos (sum_of (λ j. (st j).failure_count) 0 n)))
  unfolding send_to_redis entries last_of text_eq
  send_to_redis-counts p n st db some_step total success failure =
      let (sum, e, t, s, f) =
        report_loop-counts n st no_summary (omega arith, omega arith, omega arith) some_step in
      let (db', sent, read) = set_all-last_of (entries p sum) db in
      (
        db',
        rw (e, send_to_redis) sent,
        number_of (codes "total_count") db' _ _ total t (read (codes "total_count")),
        number_of (codes "success_count") db' _ _ success s (read (codes "success_count")),
        number_of (codes "failure_count") db' _ _ failure f (read (codes "failure_count")),
      )
