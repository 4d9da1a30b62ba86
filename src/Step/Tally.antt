-- ===== src/Step/Tally.antt =====
-- What the statistics of src/step.C say after a number of runs.
use ptf.Prelude.{◌+◌, ◌≡◌, refl, ap, ◌∙◌, ◌⊎◌, inl, inr, List, [], ◌∷◌, length, arith, Bool-cases}
use ptf.Prelude.Int.{ℤ, pos, ◌+ℤ◌, ◌≤ℤ◌, ltb_ℤ}
use ptf.Transaction.{StepResult, errend, succ, subreturn, nextevent}
use ptf.Step.{Statistics, record_run, raise, lower}

-- The runs of a step, with their results and durations, oldest first.
abbrev pub History : Type 0
History = List (StepResult × ℤ)

unfoldable pub record_all : History → Statistics → Statistics
record_all [] st = st
record_all ((ret, d) ∷ h) st = record_all h (record_run ret d st)

abbrev pub successes : History → List ℤ
successes [] = []
successes ((succ, d) ∷ h) = d ∷ successes h
successes ((errend, d) ∷ h) = successes h
successes ((subreturn, d) ∷ h) = successes h
successes ((nextevent, d) ∷ h) = successes h

abbrev pub failures : History → List ℤ
failures [] = []
failures ((succ, d) ∷ h) = failures h
failures ((errend, d) ∷ h) = d ∷ failures h
failures ((subreturn, d) ∷ h) = failures h
failures ((nextevent, d) ∷ h) = failures h

-- The sum of the durations, from `a` on.
abbrev pub add_all : ℤ → List ℤ → ℤ
add_all a [] = a
add_all a (d ∷ ds) = add_all (a +ℤ d) ds

-- The counters and sums are those of the runs that ended so.
pub record_all-sums :
    (h : History) (st : Statistics)
    → let st' = record_all h st in
      (st'.total_count ≡ st.total_count + length h)
      × (st'.success_count ≡ st.success_count + length (successes h))
      × (st'.success_duration ≡ add_all st.success_duration (successes h))
      × (st'.failure_count ≡ st.failure_count + length (failures h))
      × (st'.failure_duration ≡ add_all st.failure_duration (failures h))
unfolding record_all record_run
record_all-sums [] st = (omega arith, omega arith, refl, omega arith, refl)
record_all-sums ((succ, d) ∷ h) st =
    let (n, s, sd, f, fd) = record_all-sums h (record_run succ d st) in
    (omega (arith, n), omega (arith, s), sd, omega (arith, f), fd)
record_all-sums ((errend, d) ∷ h) st =
    let (n, s, sd, f, fd) = record_all-sums h (record_run errend d st) in
    (omega (arith, n), omega (arith, s), sd, omega (arith, f), fd)
record_all-sums ((subreturn, d) ∷ h) st =
    let (n, s, sd, f, fd) = record_all-sums h (record_run subreturn d st) in
    (omega (arith, n), omega (arith, s), sd, omega (arith, f), fd)
record_all-sums ((nextevent, d) ∷ h) st =
    let (n, s, sd, f, fd) = record_all-sums h (record_run nextevent d st) in
    (omega (arith, n), omega (arith, s), sd, omega (arith, f), fd)

abbrev pub AllBelow : ℤ → List ℤ → Type 0
AllBelow m [] = Unit
AllBelow m (d ∷ ds) = (d ≤ℤ m) × AllBelow m ds

abbrev pub Among : ℤ → List ℤ → Type 0
Among m [] = ⊥
Among m (d ∷ ds) = (m ≡ d) ⊎ Among m ds

raise_all : ℤ → List ℤ → ℤ
raise_all m [] = m
raise_all m (d ∷ ds) = raise_all (raise m d) ds

raise_above : (m d : ℤ) → (m ≤ℤ raise m d) × (d ≤ℤ raise m d) × ((raise m d ≡ m) ⊎ (raise m d ≡ d))
raise_above m d = elim (Bool-cases (ltb_ℤ m d)) [
  | inl more ↦ rw more (ground arith, omega arith, inr refl)
  | inr kept ↦ rw kept (omega arith, ground arith, inl refl)
]

≤ℤ_trans : (a b c : ℤ) → a ≤ℤ b → b ≤ℤ c → a ≤ℤ c
≤ℤ_trans a b c h k = omega arith

raise_all-bounds :
    (m : ℤ) (ds : List ℤ)
    → (m ≤ℤ raise_all m ds)
      × AllBelow (raise_all m ds) ds
      × ((raise_all m ds ≡ m) ⊎ Among (raise_all m ds) ds)
unfolding raise_all
raise_all-bounds m [] = (omega arith, tt, inl refl)
raise_all-bounds m (d ∷ ds) =
    let (up, below, where_from) = raise_all-bounds (raise m d) ds in
    let (above_m, above_d, which) = raise_above m d in
    (
      ≤ℤ_trans m (raise m d) (raise_all (raise m d) ds) above_m up,
      (≤ℤ_trans d (raise m d) (raise_all (raise m d) ds) above_d up, below),
      elim where_from [
        | inl same ↦ elim which [ inl old ↦ inl (same ∙ old) | inr new ↦ inr (inl (same ∙ new)) ]
        | inr among ↦ inr (inr among)
      ],
    )

success_max-raise_all :
    (h : History) (st : Statistics)
    → (record_all h st).success_max ≡ raise_all st.success_max (successes h)
unfolding record_all record_run raise_all
success_max-raise_all [] st = refl
success_max-raise_all ((succ, d) ∷ h) st = success_max-raise_all h (record_run succ d st)
success_max-raise_all ((errend, d) ∷ h) st = success_max-raise_all h (record_run errend d st)
success_max-raise_all ((subreturn, d) ∷ h) st = success_max-raise_all h (record_run subreturn d st)
success_max-raise_all ((nextevent, d) ∷ h) st = success_max-raise_all h (record_run nextevent d st)

-- `success_max` is the largest duration of a successful run, or what it was, whichever is larger.
pub success_max-largest :
    (h : History) (st : Statistics)
    → let m = (record_all h st).success_max in
      (st.success_max ≤ℤ m)
      × AllBelow m (successes h)
      × ((m ≡ st.success_max) ⊎ Among m (successes h))
success_max-largest h st =
    rw (success_max-raise_all h st) (raise_all-bounds st.success_max (successes h))

-- No duration is negative.
abbrev pub Forward : History → Type 0
Forward [] = Unit
Forward ((ret, d) ∷ h) = (pos 0 ≤ℤ d) × Forward h

lower-zero : (d : ℤ) → pos 0 ≤ℤ d → lower (pos 0) d ≡ pos 0
lower-zero d h = ground arith

-- From 0 on, where they start, `success_min` and `failure_min` never move, as long as the clock does
-- not go back: they are not the least duration of anything.
pub record_all-min :
    (h : History) (st : Statistics)
    → Forward h
    → st.success_min ≡ pos 0
    → st.failure_min ≡ pos 0
    → ((record_all h st).success_min ≡ pos 0) × ((record_all h st).failure_min ≡ pos 0)
unfolding record_all record_run
record_all-min [] st w s f = (s, f)
record_all-min ((succ, d) ∷ h) st w s f =
    record_all-min h (record_run succ d st) w.1 (ap (λ m. lower m d) s ∙ lower-zero d w.0) f
record_all-min ((errend, d) ∷ h) st w s f =
    record_all-min h (record_run errend d st) w.1 s (ap (λ m. lower m d) f ∙ lower-zero d w.0)
record_all-min ((subreturn, d) ∷ h) st w s f = record_all-min h (record_run subreturn d st) w.1 s f
record_all-min ((nextevent, d) ∷ h) st w s f = record_all-min h (record_run nextevent d st) w.1 s f
