-- ===== src/Pool/Task/Running/Total.antt =====
-- A task of src/mptthreadpool.C whose transactions all come back.
use ptf.Prelude.{
  ℕ, zero, suc, ◌+◌, ◌^◌, ◌<◌, ◌≡◌, refl, ap, ◌∙◌, true, Option, none, some, List, ◌++◌, length,
  Bool-cases, inl, inr,
}
use ptf.Prelude.Int.{pos, pos_part}
use ptf.Pool.Task.{
  TaskInfo, Protocol, ConnectionMap, Launch, bind, launch, plan, run_task, start_task, timer_loop,
}
use ptf.Pool.Task.Budget.{start_task-total}
use ptf.Pool.Task.Overflow.{started_task}
use ptf.Pool.Task.Running.{
  Rounds, ticking, over, behind, run_transactions, run_whole, start_whole, timer_whole,
}

abbrev as_rounds : {W : Type 0} → W → Option (TaskInfo × List Launch × ConnectionMap) → Rounds W
as_rounds w none = ticking
as_rounds w (some (ti, ls, m)) = over ti ls m w

behind-as_rounds :
    {W : Type 0} (w : W) (ls : List Launch) (o : Option (TaskInfo × List Launch × ConnectionMap))
    → behind ls (as_rounds w o)
      ≡ as_rounds w (elim o [ none ↦ none | some (ti, ls', m) ↦ some (ti, ls ++ ls', m) ])
behind-as_rounds w ls none = refl
behind-as_rounds w ls (some (ti, ls', m)) = refl

module _ {W : Type 0} (go : Launch → W → Option W) (report : ℕ → W → Option W) (p : Protocol)
    (thread : ℕ) (Good : W → Type 0)
    (back : (l : Launch) (w : W) → Good w → (w' : W) × (go l w ≡ some w') × Good w')
    (told : (script : ℕ) (w : W) → Good w → (w' : W) × (report script w ≡ some w') × Good w') where
  run_transactions-launch :
      (n script : ℕ) (m : ConnectionMap) (w : W)
      → Good w
      → (w' : W) × (run_transactions go report p thread n script m w
          ≡ some ((launch n p script thread m).0, (launch n p script thread m).1, w'))
        × Good w'
  unfolding run_transactions launch
  run_transactions-launch zero script m w good = (w, refl, good)
  run_transactions-launch (suc n) script m w good =
      let l : Launch = record { script = script; bound = (bind p thread m).0 } in
      let (w', came, good') = back l w good in
      let (w'', rest, good'') = run_transactions-launch n script (bind p thread m).1 w' good' in
      (w'', rw (came, run_transactions, rest) refl, good'')

  run_whole-run_task :
      (ti : TaskInfo) (m : ConnectionMap) (w : W)
      → Good w
      → let (again, ti', ls, m') = run_task p thread ti m in
        (w' : W) × (run_whole go report p thread ti m w ≡ some (again, ti', ls, m', w')) × Good w'
  unfolding run_whole run_task
  run_whole-run_task ti m w good = elim (Bool-cases (plan ti).1) [
    | inl more ↦
        let (w', ran, good') = run_transactions-launch (pos_part (plan ti).0) ti.script m w good in
        (w', rw (more, run_whole, run_task, ran) refl, good')
    | inr last ↦ (w, rw (last, run_whole, run_task) refl, good)
  ]

  timer_whole-timer_loop :
      (fuel : ℕ) (ti : TaskInfo) (m : ConnectionMap) (w : W)
      → Good w
      → (w' : W) × (timer_whole go report p thread fuel ti m w
          ≡ as_rounds w' (timer_loop fuel p thread ti m))
        × Good w'
  unfolding timer_whole timer_loop
  timer_whole-timer_loop zero ti m w good = (w, refl, good)
  timer_whole-timer_loop (suc fuel) ti m w good =
      let (w1, sent, good1) = told ti.script w good in
      let (w2, ran, good2) = run_whole-run_task ti m w1 good1 in
      let (again, ti', ls, m') = run_task p thread ti m in
      let (w3, rest, good3) = timer_whole-timer_loop fuel ti' m' w2 good2 in
      elim (Bool-cases again) [
        | inl more ↦ (
          w3,
          rw (timer_whole, timer_loop, sent, ran, more, rest)
              (behind-as_rounds w3 (run_task p thread ti m).2 (timer_loop fuel p thread ti' m')),
          good3,
        )
        | inr last ↦ (w2, rw (timer_whole, timer_loop, sent, ran, last) refl, good2)
      ]

  -- A task with a positive rate and a positive limit, whose sums an int can hold, on a worker where
  -- every onEvent and every report to redis returns: startTask returns and sets the timer, the
  -- timer comes to its end within as many rounds as the limit, and the first run and the rounds
  -- together have run exactly that many transactions.
  pub start_whole-total :
      (script tps total duration : ℕ) (ti : TaskInfo) (m : ConnectionMap) (w : W)
      → 0 < tps
      → 0 < total
      → tps + total < 2 ^ 31
      → duration + total + 1 < 2 ^ 31
      → Good w
      → (ti' : TaskInfo) × (ls : List Launch) × (m' : ConnectionMap) × (w' : W) × (start_whole go
            report p thread script
            (pos tps)
            (pos total)
            (pos duration)
            ti
            m
            w
          ≡ some (true, ti', ls, m', w'))
        × ((ti'' : TaskInfo) × (ls' : List Launch) × (m'' : ConnectionMap) × (w'' : W)
            × (timer_whole go report p thread total ti' m' w' ≡ over ti'' ls' m'' w'')
            × (length (ls ++ ls') ≡ total))
  unfolding start_task
  start_whole-total script tps total duration ti m w some_rate some_limit rate time good =
      let (again, (ti'', ls', m'', ended, count)) =
        start_task-total p thread script tps total (pos duration) ti m some_rate some_limit in
      let first = started_task script (pos tps) (pos total) (pos duration) ti in
      let (w', ran, good') = run_whole-run_task first m w good in
      let (_, ti', ls, m') = run_task p thread first m in
      let (w'', rounds, _) = timer_whole-timer_loop total ti' m' w' good' in
      (
        ti',
        ls,
        m',
        w',
        ran ∙ ap (λ b. some (b, ti', ls, m', w')) again,
        (ti'', ls', m'', w'', rounds ∙ ap (as_rounds w'') ended, count),
      )
