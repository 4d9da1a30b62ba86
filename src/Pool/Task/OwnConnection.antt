-- ===== src/Pool/Task/OwnConnection.antt =====
-- All transactions of a task of src/mptthreadpool.C, also those that its timer starts, are put on the
-- connection of their thread.
use ptf.Prelude.{
  ℕ, zero, suc, ◌≡◌, refl, ap, ◌∙◌, ◌≢◌, Bool, true, false, Option, none, some, List, [], ◌∷◌, ◌++◌,
  replicate, Bool-cases, inl, inr, if◌then◌else◌,
}
use ptf.Prelude.Int.{pos_part}
use ptf.Pool.Task.{
  TaskInfo, Protocol, ConnectionMap, find, Bound, Launch, plan, run_task, timer_loop,
}
use ptf.Pool.Task.Binding.{bound_to, launch-bound}

abbrev pub AllOn : Bound → List Launch → Type 0
AllOn b [] = Unit
AllOn b (l ∷ ls) = (l.bound ≡ b) × AllOn b ls

replicate-AllOn :
    (n script : ℕ) (b : Bound) → AllOn b (replicate n (record { script = script; bound = b }))
replicate-AllOn zero script b = tt
replicate-AllOn (suc n) script b = (refl, replicate-AllOn n script b)

pub append-AllOn : (b : Bound) (ks ls : List Launch) → AllOn b ks → AllOn b ls → AllOn b (ks ++ ls)
append-AllOn b [] ls v w = w
append-AllOn b (k ∷ ks) ls v w = (v.0, append-AllOn b ks ls v.1 w)

-- What the timer has started, if it has come to its end.
abbrev pub Started : Bound → Option (TaskInfo × List Launch × ConnectionMap) → Type 0
Started b none = Unit
Started b (some (ti, ls, m)) = AllOn b ls

module _ (p : Protocol) (thread c : ℕ) (connected : c ≢ 0) where
  pub run_task-AllOn :
      (ti : TaskInfo) (m : ConnectionMap)
      → find thread m ≡ some c
      → let (again, ti', ls, m') = run_task p thread ti m in AllOn (bound_to p c) ls × (m' ≡ m)
  unfolding run_task
  run_task-AllOn ti m e = elim (Bool-cases (plan ti).1) [
    | inl more ↦
        rw (more, run_task, launch-bound (pos_part (plan ti).0) p ti.script thread c m e connected)
          (replicate-AllOn (pos_part (plan ti).0) ti.script (bound_to p c), refl)
    | inr over ↦ rw (over, run_task) (tt, refl)
  ]

  pub timer_loop-Started :
      (fuel : ℕ) (ti : TaskInfo) (m : ConnectionMap)
      → find thread m ≡ some c
      → Started (bound_to p c) (timer_loop fuel p thread ti m)
  unfolding timer_loop
  timer_loop-Started zero ti m e = tt
  timer_loop-Started (suc fuel) ti m e =
      let (on, same) = run_task-AllOn ti m e in
      let (again, ti', ls, m') = run_task p thread ti m in
      join again ti' ls m' (timer_loop fuel p thread ti' m') on
        (timer_loop-Started fuel ti' m' (ap (find thread) same ∙ e))
    where
      join :
          (again : Bool) (ti' : TaskInfo) (ls : List Launch) (m' : ConnectionMap)
          (rest : Option (TaskInfo × List Launch × ConnectionMap))
          → AllOn (bound_to p c) ls
          → Started (bound_to p c) rest
          → Started (bound_to p c) (
              if again
              then elim rest [ none ↦ none | some (ti'', ls', m'') ↦ some (ti'', ls ++ ls', m'') ]
              else some (ti', ls, m'))
      join false ti' ls m' rest v w = v
      join true ti' ls m' none v w = tt
      join true ti' ls m' (some (ti'', ls', m'')) v w = append-AllOn (bound_to p c) ls ls' v w
