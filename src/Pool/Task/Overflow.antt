-- ===== src/Pool/Task/Overflow.antt =====
-- The `int` arithmetic of `runTask` in src/mptthreadpool.C, round after round.
mod Tests
use Prim.Native.Nat.{min}
use ptf.Prelude.{
  ℕ, zero, suc, ◌+◌, ◌-◌, ◌*◌, ◌^◌, ◌≤◌, ◌<◌, ◌≡◌, refl, subst, ap₂, ◌∙◌, arith, inl, inr, ltb,
  Bool-cases,
}
use ptf.Prelude.Int.{ℤ, pos, pos_part, neg_part, ◌+ℤ◌, ◌-ℤ◌, ◌≤ℤ◌}
use ptf.Pool.Task.{TaskInfo, Protocol, ConnectionMap, plan, run_task}
use ptf.Pool.Task.Budget.{Counted, plan-Counted, +ℤ-pos}
use ptf.Pool.Task.Endless.{Timed, plan-Timed}
use native.Mathlib.Nat.{suc-mul}

-- What an `int` of 32 bits can hold
abbrev pub InInt : ℤ → Type 0
InInt z = (pos_part z < 2 ^ 31) × (neg_part z ≤ 2 ^ 31)

-- The sums and differences that `runTask` makes, of which none may overflow
pub record SumsFit (ti : TaskInfo) : Type 0 where
  pub next_count : InInt (ti.n_count +ℤ ti.tps)
  pub left : InInt (ti.total -ℤ ti.n_count)
  pub counted : InInt (ti.n_count +ℤ (plan ti).0)
  pub clock : InInt (ti.duration +ℤ pos 1)
  pub seconds : InInt (ti.n_secs +ℤ pos 1)

-- The task after so many rounds
pub task_after : ℕ → Protocol → ℕ → TaskInfo → ConnectionMap → TaskInfo
task_after zero p thread ti m = ti
task_after (suc k) p thread ti m =
    let (again, ti', ls, m') = run_task p thread ti m in task_after k p thread ti' m'

-- The task as `startTask` sets it
abbrev pub started_task : (script : ℕ) (tps total duration : ℤ) → TaskInfo → TaskInfo
started_task script tps total duration ti = record ti {
  script = script;
  tps = tps;
  total = total;
  duration = duration;
  n_count = pos 0;
  n_secs = pos 0;
}

-- A task of so many transactions in all, with `c` started, whose duration was `d` at the start: a round that
-- goes on moves the duration by one and the count by one at least.
record Ticking (ti : TaskInfo) (tps total d c : ℕ) : Type 0 where
  counted : Counted ti tps total c
  within : c ≤ total
  elapsed : ℕ
  clock : ti.duration ≡ pos elapsed
  behind : elapsed ≤ d + c
  seconds : ti.n_secs ≡ pos 0

fits-below : (a b : ℕ) → a + b < 2 ^ 31 → InInt (pos a +ℤ pos b)
unfolding ◌+ℤ◌
fits-below a b h = ground arith

fits-left : (a b : ℕ) → b ≤ a → a < 2 ^ 31 → InInt (pos a -ℤ pos b)
unfolding ◌-ℤ◌
fits-left a b le h = ground arith

module _ (p : Protocol) (thread : ℕ) where
  Ticking-SumsFit :
      {ti : TaskInfo} (tps total d c : ℕ)
      → Ticking ti tps total d c
      → 0 < total
      → tps + total < 2 ^ 31
      → d + total + 1 < 2 ^ 31
      → SumsFit ti
  Ticking-SumsFit {ti} tps total d c v some_limit rate time = record {
    next_count =
        rw (v.counted.started, v.counted.rate) (fits-below c tps (omega (arith, v.within)));
    left = rw (v.counted.started, v.counted.limit) (fits-left total c v.within (omega arith));
    counted =
        rw (plan-Counted p thread v.counted some_limit v.within, v.counted.started)
          (fits-below c (min tps (total - c)) (omega (arith, v.within)));
    clock = rw v.clock (fits-below v.elapsed 1 (omega (arith, v.behind, v.within)));
    seconds = rw v.seconds (fits-below 0 1 (omega arith));
  }

  run_task-Ticking :
      {ti : TaskInfo} (tps total d c : ℕ) (m : ConnectionMap)
      → Ticking ti tps total d c
      → 0 < total
      → (c' : ℕ) × Ticking (run_task p thread ti m).1 tps total d c'
  unfolding run_task
  run_task-Ticking {ti} tps total d c m v some_limit =
      elim (Bool-cases (ltb 0 (min tps (total - c)))) [
        | inl more ↦
            rw (plan-Counted p thread v.counted some_limit v.within, more)
              (
                c + min tps (total - c),
                record {
                  counted = record {
                    rate = v.counted.rate;
                    limit = v.counted.limit;
                    started = rw v.counted.started (+ℤ-pos c (min tps (total - c)));
                  };
                  within = omega (arith, v.within);
                  elapsed = v.elapsed + 1;
                  clock = rw v.clock (+ℤ-pos v.elapsed 1);
                  behind = ground (arith, v.behind);
                  seconds = v.seconds;
                },
              )
        | inr over ↦ rw (plan-Counted p thread v.counted some_limit v.within, over) (c, v)
      ]

  task_after-Ticking :
      (k : ℕ) {ti : TaskInfo} (tps total d c : ℕ) (m : ConnectionMap)
      → Ticking ti tps total d c
      → 0 < total
      → (c' : ℕ) × Ticking (task_after k p thread ti m) tps total d c'
  unfolding task_after
  task_after-Ticking zero tps total d c m v some_limit = (c, v)
  task_after-Ticking (suc k) {ti} tps total d c m v some_limit =
      let (c', v') = run_task-Ticking tps total d c m v some_limit in
      task_after-Ticking k tps total d c' (run_task p thread ti m).3 v' some_limit

  -- For a task with a limit whose rate, duration and limit are not negative, and stay below 2^31 when the limit is
  -- added to the rate, and to the duration with one more: no round of it makes a sum that an `int`
  -- cannot hold.
  pub task_after-SumsFit :
      (k script tps total duration : ℕ) (ti : TaskInfo) (m : ConnectionMap)
      → 0 < total
      → tps + total < 2 ^ 31
      → duration + total + 1 < 2 ^ 31
      → SumsFit
          (task_after k p thread (started_task script (pos tps) (pos total) (pos duration) ti) m)
  task_after-SumsFit k script tps total duration ti m some_limit rate time =
      let first = started_task script (pos tps) (pos total) (pos duration) ti in
      let v : Ticking first tps total duration 0 = record {
        counted = record { rate = refl; limit = refl; started = refl };
        within = omega arith;
        elapsed = duration;
        clock = refl;
        behind = omega arith;
        seconds = refl;
      } in
      let (c, v') = task_after-Ticking k tps total duration 0 m v some_limit in
      Ticking-SumsFit tps total duration c v' some_limit rate time

  -- A task with no limit, `c` of its transactions started
  record Counting (ti : TaskInfo) (tps c : ℕ) : Type 0 where
    timed : Timed ti
    rate : ti.tps ≡ pos tps
    started : ti.n_count ≡ pos c

  run_task-Counting :
      {ti : TaskInfo} (tps c : ℕ) (m : ConnectionMap)
      → Counting ti tps c
      → Counting (run_task p thread ti m).1 tps (c + tps)
  unfolding run_task
  run_task-Counting tps c m v = rw (plan-Timed p thread v.timed) (record {
    timed = record { unlimited = v.timed.unlimited; no_secs = v.timed.no_secs };
    rate = v.rate;
    started = rw (v.started, v.rate) (+ℤ-pos c tps);
  })

  task_after-Counting :
      (k : ℕ) {ti : TaskInfo} (tps c : ℕ) (m : ConnectionMap)
      → Counting ti tps c
      → Counting (task_after k p thread ti m) tps (c + k * tps)
  unfolding task_after
  task_after-Counting zero {ti} tps c m v = subst (Counting ti tps) (omega arith) v
  task_after-Counting (suc k) {ti} tps c m v =
      subst
        (Counting (task_after k p thread (run_task p thread ti m).1 (run_task p thread ti m).3) tps)
        (omega (arith, suc-mul k tps))
        (task_after-Counting k tps (c + tps) (run_task p thread ti m).3
          (run_task-Counting tps c m v))

  -- A task without a limit, whatever its duration: once its rounds times its rate come to 2^31, its next sum is
  -- more than an `int` can hold.
  pub task_after-overflows :
      (k script tps : ℕ) (total duration : ℤ) (ti : TaskInfo) (m : ConnectionMap)
      → total ≤ℤ pos 0
      → 2 ^ 31 ≤ k * tps
      → ¬ SumsFit (task_after k p thread (started_task script (pos tps) total duration ti) m)
  task_after-overflows k script tps total duration ti m unlimited many fit =
      let first = started_task script (pos tps) total duration ti in
      let v : Counting first tps 0 = record {
        timed = record { unlimited = unlimited; no_secs = refl };
        rate = refl;
        started = refl;
      } in
      let v' = task_after-Counting k tps 0 m v in
      let sum : (task_after k p thread first m).n_count +ℤ (task_after k p thread first m).tps
          ≡ pos (0 + k * tps + tps) =
        ap₂ (λ a b. a +ℤ b) v'.started v'.rate ∙ +ℤ-pos (0 + k * tps) tps in
      let big : InInt (pos (0 + k * tps + tps)) = subst InInt sum fit.next_count in
      omega (arith, big.0, many)
