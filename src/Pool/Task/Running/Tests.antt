-- ===== src/Pool/Task/Running/Tests.antt =====
-- Tasks of src/mptthreadpool.C with scripts of one step and of two.
use ptf.Prelude.{
  ℕ, zero, suc, ◌≡◌, refl, true, Option, none, some, [], ◌∷◌, ◌++◌, List, arith, length, replicate,
}
use ptf.Prelude.Int.{pos}
use ptf.Ring.{Ring}
use ptf.Ring.Rep.{Rep}
use ptf.Transaction.{
  StepResult, succ, Links, Usage, on_event, body, poll, arrive, advance, new_transaction,
}
use ptf.Transaction.Queues.{list_queue, ring_queue}
use ptf.Pool.Task.{TaskInfo, new_task, tcp, ConnectionMap, Launch}
use ptf.Pool.Task.Running.{over, transact, start_whole, timer_whole}
use ptf.Pool.Task.Running.Total.{start_whole-total}
use ptf.Pool.Task.Running.Waiting.{start_whole-waits}

-- Thread 6 has the connection 40.
abbrev connections : ConnectionMap
connections = (6, 40) ∷ []

abbrev no_links : ℕ → Links
no_links i = record { next = none; child = none; parent = none }

-- The first step is followed by the second.
abbrev two_links : ℕ → Links
two_links i = elim i [
  | zero ↦ record { next = some 1; child = some 1; parent = none }
  | suc k ↦ record { next = none; child = none; parent = some k }
]

-- A step that counts its runs and succeeds.
abbrev count_runs : ℕ → Option ℕ → ℕ → StepResult × ℕ
count_runs i e s = (succ, suc s)

-- `onEvent` for a script of one such step, with a round in which nothing is pushed
abbrev one_step : Launch → ℕ × Usage → Option (ℕ × Usage)
one_step = transact (list_queue 511) [] no_links count_runs (some 0) (λ s. [] ∷ [])

abbrev report : ℕ → ℕ × Usage → Option (ℕ × Usage)
report script w = some w

abbrev unused : Usage
unused = record { using = 0; used = 0 }

one_step-back :
    (l : Launch) (w : ℕ × Usage) → Unit {0} → (w' : ℕ × Usage) × (one_step l w ≡ some w') × Unit {0}
unfolding transact on_event arrive poll body advance list_queue new_transaction
one_step-back l w good = (_, refl, tt)

-- Seven transactions at a rate of three: 3 at once, then 3 and 1 on the timer.
start_whole-total_example :
    (ti' : TaskInfo) × (ls : List Launch) × (m' : ConnectionMap) × (w' : ℕ × Usage) × (start_whole
        one_step report tcp 6 70
        (pos 3)
        (pos 7)
        (pos 0)
        new_task
        connections
        (0, unused)
      ≡ some (true, ti', ls, m', w'))
    × ((ti'' : TaskInfo) × (ls' : List Launch) × (m'' : ConnectionMap) × (w'' : ℕ × Usage)
        × (timer_whole one_step report tcp 6 7 ti' m' w' ≡ over ti'' ls' m'' w'')
        × (length (ls ++ ls') ≡ 7))
start_whole-total_example =
    start_whole-total one_step report tcp 6 (λ w. Unit {0}) one_step-back
      (λ script w good. (w, refl, tt)) 70 3 7 0 new_task connections (0, unused) (omega arith)
      (omega arith) (omega arith) (omega arith) tt

abbrev blank : Ring ℕ
blank = record { slots = replicate 512 none; size = 512; head = 0; tail = 0; sp = true; sc = true }

blank-Rep : Rep blank []
blank-Rep = record {
  big = omega arith;
  fits = omega arith;
  stored_len = refl;
  head_in = omega arith;
  tail_in = omega arith;
  room = omega arith;
  tail_at = refl;
  stored = tt;
}

-- A script of two steps: the first has sent, and nothing comes.
start_whole-waits_example :
    start_whole
      (transact (ring_queue 99) blank two_links count_runs (some 0) (λ _. replicate 5 []))
      report
      tcp
      6
      70
      (pos 3)
      (pos 7)
      (pos 0)
      new_task
      connections
      (0, unused)
    ≡ none
start_whole-waits_example =
    start_whole-waits 99 two_links count_runs 0 1 refl tcp 6 70 3 (pos 7) (pos 0) new_task
      connections report blank unused 5 (omega arith) blank-Rep refl
