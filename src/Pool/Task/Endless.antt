-- ===== src/Pool/Task/Endless.antt =====
-- The tasks of src/mptthreadpool.C that never stop: `runTask` counts `m_duration` up where it means
-- `m_nSecs`, and it never reads `m_stopFlag`.
use ptf.Prelude.{
  ℕ, zero, suc, ◌≡◌, refl, Bool, true, false, ◌&&◌, none, some, arith, Bool-cases, inl, inr,
}
use ptf.Prelude.Int.{ℤ, pos, ◌+ℤ◌, ◌≤ℤ◌, ltb_ℤ}
use ptf.Pool.Task.{TaskInfo, Protocol, ConnectionMap, plan, run_task, timer_loop}

-- A task with no limit on its transactions, as `startTask` leaves it: whatever its duration.
pub record Timed (ti : TaskInfo) : Type 0 where
  pub unlimited : ti.total ≤ℤ pos 0
  pub no_secs : ti.n_secs ≡ pos 0

not_limited : (ti : TaskInfo) → ti.total ≤ℤ pos 0 → ltb_ℤ (pos 0) ti.total ≡ false
not_limited ti h = ground arith

time_left : (d : ℤ) → (ltb_ℤ (pos 0) d && ltb_ℤ d (pos 1)) ≡ false
time_left d = ground arith

plan-stop_flag : (ti : TaskInfo) (b : Bool) → plan (record ti { stop_flag = b }) ≡ plan ti
unfolding plan
plan-stop_flag ti b = refl

module _ (p : Protocol) (thread : ℕ) where
  pub plan-Timed : {ti : TaskInfo} → Timed ti → plan ti ≡ (ti.tps, true)
  unfolding plan ◌+ℤ◌
  plan-Timed {ti} v = rw (not_limited ti v.unlimited, v.no_secs) (rw (time_left ti.duration))

  -- A round of such a task asks for another round, and its clock has not moved.
  pub run_task-Timed :
      {ti : TaskInfo} (m : ConnectionMap)
      → Timed ti
      → ((run_task p thread ti m).0 ≡ true) × Timed (run_task p thread ti m).1
  unfolding run_task
  run_task-Timed m v =
      rw (plan-Timed v) (refl, record { unlimited = v.unlimited; no_secs = v.no_secs })

  -- The flag changes nothing in a round but itself.
  pub run_task-stop_flag :
      (ti : TaskInfo) (m : ConnectionMap) (b : Bool)
      → run_task p thread (record ti { stop_flag = b }) m ≡ (
          let (again, ti', ls, m') = run_task p thread ti m in
          (again, record ti' { stop_flag = b }, ls, m'))
  unfolding run_task
  run_task-stop_flag ti m b = elim (Bool-cases (plan ti).1) [
    | inl more ↦ rw (plan-stop_flag ti b, more)
    | inr over ↦ rw (plan-stop_flag ti b, over)
  ]

  -- The flag that `stopTask` sets changes nothing but itself: the rounds of the timer start the same
  -- transactions and end when they would have ended.
  pub timer_loop-stop_flag :
      (fuel : ℕ) (ti : TaskInfo) (m : ConnectionMap) (b : Bool)
      → timer_loop fuel p thread (record ti { stop_flag = b }) m
        ≡ elim (timer_loop fuel p thread ti m) [
          | none ↦ none
          | some (ti', ls, m') ↦ some (record ti' { stop_flag = b }, ls, m')
        ]
  unfolding timer_loop
  timer_loop-stop_flag zero ti m b = refl
  timer_loop-stop_flag (suc fuel) ti m b =
      let (again, ti', ls, m') = run_task p thread ti m in
      ground (arith, run_task-stop_flag ti m b, timer_loop-stop_flag fuel ti' m' b)
