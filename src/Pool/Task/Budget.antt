-- ===== src/Pool/Task/Budget.antt =====
-- How many transactions a task of src/mptthreadpool.C starts, and when its timer stops.
use Prim.Native.Nat.{min}
use ptf.Prelude.{
  ℕ, zero, suc, ◌+◌, ◌-◌, ◌≤◌, ◌<◌, ◌≡◌, refl, subst, ap, ◌∙◌, true, some, List, ◌++◌, arith, inl,
  inr, ltb, length, length-append, Bool-cases,
}
use ptf.Prelude.Int.{ℤ, pos, ◌+ℤ◌, ◌-ℤ◌}
use ptf.Pool.Task.{
  TaskInfo, Protocol, ConnectionMap, bind, Launch, launch, plan, run_task, start_task, timer_loop,
}

length-launch :
    (n : ℕ) (p : Protocol) (script thread : ℕ) (m : ConnectionMap)
    → length (launch n p script thread m).0 ≡ n
unfolding launch
length-launch zero p script thread m = refl
length-launch (suc n) p script thread m =
    ap suc (length-launch n p script thread (bind p thread m).1)

pub +ℤ-pos : (a b : ℕ) → pos a +ℤ pos b ≡ pos (a + b)
unfolding ◌+ℤ◌
+ℤ-pos a b = ground arith

-- A task that is limited by its number of transactions, `c` of `total` started.
pub record Counted (ti : TaskInfo) (tps total c : ℕ) : Type 0 where
  pub rate : ti.tps ≡ pos tps
  pub limit : ti.total ≡ pos total
  pub started : ti.n_count ≡ pos c

module _ (p : Protocol) (thread : ℕ) where
  module _ {ti : TaskInfo} {tps total c : ℕ} (v : Counted ti tps total c) (some_limit : 0 < total)
      (within : c ≤ total) where
    pub plan-Counted : plan ti ≡ (pos (min tps (total - c)), ltb 0 (min tps (total - c)))
    unfolding plan ◌+ℤ◌ ◌-ℤ◌
    plan-Counted = rw (v.rate, v.limit, v.started) (ground arith)

    -- One round of a counted task starts as many transactions as the rate and the limit allow, counts
    -- them, and asks for another round exactly if it started any.
    pub run_task-Counted :
        (m : ConnectionMap)
        → let (again, ti', ls, m') = run_task p thread ti m in
          (length ls ≡ min tps (total - c))
          × (again ≡ ltb 0 (min tps (total - c)))
          × Counted ti' tps total (c + min tps (total - c))
    unfolding run_task
    run_task-Counted m = elim (Bool-cases (ltb 0 (min tps (total - c)))) [
      | inl more ↦
          rw (plan-Counted, more)
            (
              length-launch (min tps (total - c)) p ti.script thread m,
              refl,
              record {
                rate = v.rate;
                limit = v.limit;
                started = rw v.started (+ℤ-pos c (min tps (total - c)));
              },
            )
      | inr over ↦
          rw (plan-Counted, over)
            (
              ground arith,
              refl,
              record {
                rate = v.rate;
                limit = v.limit;
                started = v.started ∙ ap pos (ground arith);
              },
            )
    ]

  -- What the rounds of the timer do: they end, and all in all they start what is left.
  pub timer_loop-Counted :
      (fuel : ℕ) {ti : TaskInfo} {tps total c : ℕ} (m : ConnectionMap)
      → Counted ti tps total c
      → 0 < tps
      → 0 < total
      → c ≤ total
      → total - c < fuel
      → (ti' : TaskInfo) × (ls : List Launch) × (m' : ConnectionMap) × (timer_loop fuel p thread ti
            m
          ≡ some (ti', ls, m'))
        × (length ls ≡ total - c)
        × Counted ti' tps total total
  unfolding timer_loop
  timer_loop-Counted zero m v ht hl hc hf = absurd (omega arith)
  timer_loop-Counted (suc fuel) {ti} {tps} {total} {c} m v ht hl hc hf =
      elim (Bool-cases (ltb 0 (min tps (total - c)))) [
        | inl more ↦
            let (n, again, v') = run_task-Counted v hl hc m in
            let (ti', ls, m', e, k, done) =
              timer_loop-Counted fuel (run_task p thread ti m).3 v' ht hl (omega arith)
                (ground arith) in
            (
              ti',
              (run_task p thread ti m).2 ++ ls,
              m',
              ground arith,
              omega (arith, length-append (run_task p thread ti m).2 ls, n, k),
              done,
            )
        | inr over ↦
            let (n, again, v') = run_task-Counted v hl hc m in
            let (_, ti', ls, m') = run_task p thread ti m in
            (
              ti',
              ls,
              m',
              ground arith,
              ground arith,
              subst (λ k. Counted ti' tps total k) (ground arith) v',
            )
      ]

  -- If each `onEvent` returns and no sum is too large for an `int`: a task with a positive rate and a positive
  -- limit starts exactly that many transactions, over the first run and the timer's, and its timer stops:
  -- `total` rounds are enough.
  pub start_task-total :
      (script tps total : ℕ) (duration : ℤ) (ti : TaskInfo) (m : ConnectionMap)
      → 0 < tps
      → 0 < total
      → let (again, ti', ls, m') = start_task p thread script (pos tps) (pos total) duration ti m in
        (again ≡ true)
        × ((ti'' : TaskInfo) × (ls' : List Launch) × (m'' : ConnectionMap) × (timer_loop total p
                thread ti' m'
              ≡ some (ti'', ls', m''))
            × (length (ls ++ ls') ≡ total))
  unfolding start_task
  start_task-total script tps total duration ti m ht hl =
      let first : TaskInfo = record ti {
        script = script;
        tps = pos tps;
        total = pos total;
        duration = duration;
        n_count = pos 0;
        n_secs = pos 0;
      } in
      let v : Counted first tps total 0 = record { rate = refl; limit = refl; started = refl } in
      let (n, again, v') = run_task-Counted v hl (omega arith) m in
      let (ti'', ls', m'', e, k, done) =
        timer_loop-Counted total (run_task p thread first m).3 v' ht hl (omega arith)
          (ground arith) in
      (
        ground arith,
        (ti'', ls', m'', e, omega (arith, length-append (run_task p thread first m).2 ls', n, k)),
      )
