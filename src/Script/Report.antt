-- ===== src/Script/Report.antt =====
-- What `m_send_st2redis` of src/script.C adds up.
use ptf.Prelude.{
  ℕ, zero, suc, ◌+◌, ◌%◌, ◌^◌, ◌<◌, ◌≡◌, refl, ◌∙◌, false, none, some, arith, ltb, lt→ltb,
  if◌then◌else◌,
}
use ptf.Transaction.{Links, next_step}
use ptf.Step.{Statistics}
use ptf.Script.{links_of, Summary, add_step, report_loop}

-- The statistics of `k` steps from `i` on, added up in order.
pub add_steps : (ℕ → Statistics) → (i k : ℕ) → Summary → Summary
add_steps st i zero sum = sum
add_steps st i (suc k) sum = add_steps st (i + 1) k (add_step sum (st i))

-- The sum of a number of each of the steps.
unfoldable pub sum_of : (ℕ → ℕ) → (i k : ℕ) → ℕ
sum_of f i zero = 0
sum_of f i (suc k) = f i + sum_of f (i + 1) k

next-links_of :
    (n i : ℕ) → next_step (links_of n i) ≡ (if ltb (i + 1) n then some (i + 1) else none)
unfolding links_of
next-links_of n i = ground arith

report_loop-step :
    (fuel i : ℕ) (links : ℕ → Links) (st : ℕ → Statistics) (sum : Summary)
    → report_loop (suc fuel) links st (some i) sum
      ≡ report_loop fuel links st (next_step (links i)) (add_step sum (st i))
unfolding report_loop
report_loop-step fuel i links st sum = refl

report_loop-add_steps :
    (fuel n i k : ℕ) (st : ℕ → Statistics) (sum : Summary)
    → i + suc k ≡ n
    → suc k < fuel
    → report_loop fuel (links_of n) st (some i) sum ≡ some (add_steps st i (suc k) sum)
unfolding report_loop add_steps
report_loop-add_steps zero n i k st sum e h = absurd (omega arith)
report_loop-add_steps (suc zero) n i k st sum e h = absurd (omega arith)
report_loop-add_steps (suc (suc fuel)) n i zero st sum e h =
    report_loop-step (suc fuel) i (links_of n) st sum ∙ rw (next-links_of n i, last)
  where
    last : ltb (i + 1) n ≡ false
    last = ground arith
report_loop-add_steps (suc (suc fuel)) n i (suc k) st sum e h =
    report_loop-step (suc fuel) i (links_of n) st sum
    ∙ rw (next-links_of n i, lt→ltb (i + 1) n (omega arith))
        (report_loop-add_steps (suc fuel) n (i + 1) k st (add_step sum (st i)) (omega arith)
          (omega arith))

-- The counts are words of 32 bits.
abbrev pub CountsFit : Summary → Type 0
CountsFit sum =
    (sum.total_count < 2 ^ 32) × (sum.success_count < 2 ^ 32) × (sum.failure_count < 2 ^ 32)

add_steps-counts :
    (st : ℕ → Statistics) (i k : ℕ) (sum : Summary)
    → CountsFit sum
    → ((add_steps st i k sum).total_count
        ≡ (sum.total_count + sum_of (λ j. (st j).total_count) i k) % 2 ^ 32)
      × ((add_steps st i k sum).success_count
          ≡ (sum.success_count + sum_of (λ j. (st j).success_count) i k) % 2 ^ 32)
      × ((add_steps st i k sum).failure_count
          ≡ (sum.failure_count + sum_of (λ j. (st j).failure_count) i k) % 2 ^ 32)
unfolding add_steps sum_of add_step
add_steps-counts st i zero sum (t, s, f) = (omega (arith, t), omega (arith, s), omega (arith, f))
add_steps-counts st i (suc k) sum fit =
    let (t, s, f) =
      add_steps-counts st (i + 1) k (add_step sum (st i)) (omega arith, omega arith, omega arith) in
    (omega (arith, t), omega (arith, s), omega (arith, f))

-- On a script of `n` steps, one at least, with the links that `init` gives them, the loop of
-- `m_send_st2redis` ends, after one round more than there are steps, and its counts are the sums of the
-- counts of all steps, modulo 2^32.
pub report_loop-counts :
    (n : ℕ) (st : ℕ → Statistics) (sum : Summary)
    → CountsFit sum
    → 0 < n
    → (out : Summary) × (report_loop (n + 1) (links_of n) st (some 0) sum ≡ some out)
      × (out.total_count ≡ (sum.total_count + sum_of (λ j. (st j).total_count) 0 n) % 2 ^ 32)
      × (out.success_count ≡ (sum.success_count + sum_of (λ j. (st j).success_count) 0 n) % 2 ^ 32)
      × (out.failure_count ≡ (sum.failure_count + sum_of (λ j. (st j).failure_count) 0 n) % 2 ^ 32)
report_loop-counts zero st sum fit h = absurd (omega arith)
report_loop-counts (suc k) st sum fit h =
    let (t, s, f) = add_steps-counts st 0 (suc k) sum fit in
    (
      add_steps st 0 (suc k) sum,
      report_loop-add_steps (suc k + 1) (suc k) 0 k st sum (omega arith) (omega arith),
      t,
      s,
      f,
    )
