-- ===== src/Pool/Task/Running/Waiting.antt =====
-- A task of src/mptthreadpool.C whose first transaction waits for an event.
use Prim.Native.Nat.{min}
use ptf.Prelude.{
  ℕ, Bool, ◌-◌, zero, suc, ◌<◌, ◌≡◌, refl, Option, none, some, [], replicate, true, false, arith,
}
use ptf.Prelude.Int.{ℤ, pos, negsuc, pos_part}
use ptf.Ring.{Ring}
use ptf.Ring.Rep.{Rep}
use ptf.Transaction.{
  StepResult, succ, Links, next_step, Usage, looping, new_transaction, arrive, body, advance,
  on_event,
}
use ptf.Transaction.Queues.{ring_queue}
use ptf.Transaction.Waiting.{poll-empty, on_event-looping}
use ptf.Pool.Task.{TaskInfo, Protocol, ConnectionMap, plan}
use ptf.Pool.Task.Budget.{Counted, plan-Counted}
use ptf.Pool.Task.Endless.{Timed, plan-Timed}
use ptf.Pool.Task.Overflow.{started_task}
use ptf.Pool.Task.Running.{transact, run_transactions, run_whole, start_whole}

-- Some transactions are started.
abbrev Starts : ℤ × Bool → Type 0
Starts r = (r.1 ≡ true) × ((k : ℕ) × (pos_part r.0 ≡ suc k))

-- A task with a positive rate has transactions to start, whatever its limit and its duration.
plan-Starts :
    (p : Protocol) (thread script tps : ℕ) (total duration : ℤ) (ti : TaskInfo)
    → 0 < tps
    → Starts (plan (started_task script (pos tps) total duration ti))
plan-Starts p thread script tps (pos (suc l)) duration ti some_rate =
    let first = started_task script (pos tps) (pos (suc l)) duration ti in
    let v : Counted first tps (suc l) 0 = record { rate = refl; limit = refl; started = refl } in
    rw (plan-Counted p thread v (omega arith) (omega arith))
      (ground arith, (min tps (suc l) - 1, omega arith))
plan-Starts p thread script (suc k) (pos zero) duration ti some_rate =
    let v : Timed (started_task script (pos (suc k)) (pos zero) duration ti) = record {
      unlimited = omega arith;
      no_secs = refl;
    } in
    rw (plan-Timed p thread v) (refl, (k, refl))
plan-Starts p thread script (suc k) (negsuc n) duration ti some_rate =
    let v : Timed (started_task script (pos (suc k)) (negsuc n) duration ti) = record {
      unlimited = omega arith;
      no_secs = refl;
    } in
    rw (plan-Timed p thread v) (refl, (k, refl))
plan-Starts p thread script zero (pos zero) duration ti some_rate = absurd (omega arith)
plan-Starts p thread script zero (negsuc n) duration ti some_rate = absurd (omega arith)

module _ {E S : Type 0} (junk : ℕ) (links : ℕ → Links) (run : ℕ → Option E → S → StepResult × S)
    (i j : ℕ) (follows : next_step (links i) ≡ some j) where
  sends_and_waits :
      (queue : Ring E) (u : Usage) {s s' : S} (rounds : ℕ)
      → Rep queue []
      → run i none s ≡ (succ, s')
      → on_event
          (ring_queue junk)
          links
          run
          (replicate rounds [])
          (new_transaction (ring_queue junk) queue (some i) u)
          s
        ≡ looping
  unfolding on_event arrive body advance new_transaction
  sends_and_waits queue u zero v sent = refl
  sends_and_waits queue u {s'} (suc rounds) v sent =
      rw (poll-empty junk links run v, sent, advance, follows)
        (on_event-looping junk links run rounds
          (record (new_transaction (ring_queue junk) queue (some i) u) {
            is_send = false;
            cur_step = some j;
          })
          s' refl v)

  -- A task with a positive rate, whatever its limit and its duration, of a script whose first step
  -- sends and is followed by another: while no event is pushed, startTask does not come back, after
  -- any number of rounds of the first transaction's onEvent, and so sets no timer and starts no
  -- other transaction.
  pub start_whole-waits :
      (p : Protocol) (thread script tps : ℕ) (total duration : ℤ) (ti : TaskInfo)
      (m : ConnectionMap) (report : ℕ → S × Usage → Option (S × Usage)) (queue : Ring E) (u : Usage)
      {s s' : S} (rounds : ℕ)
      → 0 < tps
      → Rep queue []
      → run i none s ≡ (succ, s')
      → start_whole
          (transact (ring_queue junk) queue links run (some i) (λ _. replicate rounds []))
          report
          p
          thread
          script
          (pos tps)
          total
          duration
          ti
          m
          (s, u)
        ≡ none
  unfolding run_whole run_transactions transact
  start_whole-waits p thread script tps total duration ti m report queue u rounds some_rate v sent =
      let (goes_on, (k, some_left)) = plan-Starts p thread script tps total duration ti some_rate in
      rw
        (
          run_whole,
          goes_on,
          some_left,
          run_transactions,
          transact,
          sends_and_waits queue u rounds v sent,
        )
        refl
