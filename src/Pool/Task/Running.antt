-- ===== src/Pool/Task/Running.antt =====
-- `runTask`, `startTask` and the timer callback of src/mptthreadpool.C with what they wait for: the `onEvent` of
-- each transaction, and the report to redis before each round of the timer.
pub mod Total
pub mod Waiting
mod Tests
use ptf.Prelude.{
  ℕ, zero, suc, Bool, true, false, Option, none, some, List, [], ◌∷◌, ◌++◌, if◌then◌else◌,
}
use ptf.Prelude.Int.{ℤ, pos, pos_part, ◌+ℤ◌}
use ptf.Transaction.{
  StepResult, Links, Usage, QueueOps, looping, crashed, returned, new_transaction, on_event,
}
use ptf.Pool.Task.{TaskInfo, Protocol, ConnectionMap, Launch, bind, plan}
use ptf.Pool.Task.Overflow.{started_task}

-- `new TTransation` and its `onEvent`, on the steps' state and the script's counters. `rounds` says which events
-- others push meanwhile. `none`: it has not returned within these rounds, or calls `run` of NULL.
module _ {E Q S : Type 0} (ops : QueueOps E Q) (queue : Q) (links : ℕ → Links)
    (run : ℕ → Option E → S → StepResult × S) (first : Option ℕ) (rounds : S → List (List E)) where
  pub transact : Launch → S × Usage → Option (S × Usage)
  unfolding on_event
  transact l (s, u) =
      elim (on_event ops links run (rounds s) (new_transaction ops queue first u) s) [
        | looping ↦ none
        | crashed ↦ none
        | returned r t s' ↦ some (s', t.usage)
      ]

-- What the rounds of the timer come to: some `onEvent`, or the report, has not returned, the timer is still set,
-- or it is not set anew.
pub data Rounds (W : Type 0) : Type 0 where
  stuck ticking : Rounds W
  over : TaskInfo → List Launch → ConnectionMap → W → Rounds W

-- Behind a round that started these transactions
abbrev pub behind : {W : Type 0} → List Launch → Rounds W → Rounds W
behind ls stuck = stuck
behind ls ticking = ticking
behind ls (over ti ls' m w) = over ti (ls ++ ls') m w

-- `go` is `onEvent` of a transaction, `report` is `m_send_st2redis` of a script; `none` is a call that does not return.
module _ {W : Type 0} (go : Launch → W → Option W) (report : ℕ → W → Option W) (p : Protocol)
    (thread : ℕ) where
  -- The `for` loop of `runTask`, with the rounds that are left.
  pub run_transactions : ℕ → ℕ → ConnectionMap → W → Option (List Launch × ConnectionMap × W)
  unfolding bind
  run_transactions zero script m w = some ([], m, w)
  run_transactions (suc n) script m w =
      let (b, m') = bind p thread m in
      let l : Launch = record { script = script; bound = b } in
      elim (go l w) [
        | none ↦ none
        | some w' ↦ elim (run_transactions n script m' w') [
          | none ↦ none
          | some (ls, m'', w'') ↦ some (l ∷ ls, m'', w'')
        ]
      ]

  -- `runTask`, on sums that an `int` can hold
  pub run_whole :
      TaskInfo → ConnectionMap → W → Option (Bool × TaskInfo × List Launch × ConnectionMap × W)
  unfolding plan
  run_whole ti m w =
      let (n, goes_on) = plan ti in
      if goes_on
      then elim (run_transactions (pos_part n) ti.script m w) [
        | none ↦ none
        | some (ls, m', w') ↦ some (
          true,
          record ti { n_count = ti.n_count +ℤ n; duration = ti.duration +ℤ pos 1 },
          ls,
          m',
          w',
        )
      ]
      else some (false, ti, [], m, w)

  -- `startTask`
  abbrev pub start_whole :
      (script : ℕ) (tps total duration : ℤ)
      → TaskInfo
      → ConnectionMap
      → W
      → Option (Bool × TaskInfo × List Launch × ConnectionMap × W)
  start_whole script tps total duration ti m w =
      run_whole (started_task script tps total duration ti) m w

  -- `time_cb`, called again and again while it sets the timer anew
  pub timer_whole : ℕ → TaskInfo → ConnectionMap → W → Rounds W
  unfolding run_whole
  timer_whole zero ti m w = ticking
  timer_whole (suc fuel) ti m w = elim (report ti.script w) [
    | none ↦ stuck
    | some w' ↦ elim (run_whole ti m w') [
      | none ↦ stuck
      | some (again, ti', ls, m', w'') ↦
          (let rest = timer_whole fuel ti' m' w'' in
            if again then behind ls rest else over ti' ls m' w'')
    ]
  ]
