-- ===== src/Step/Clock.antt =====
-- `timeval_subtract` of src/step.h.
use ptf.Prelude.{ℕ, ◌+◌, ◌-◌, ◌*◌, ◌<◌, ◌≤◌, ◌≡◌, none, some, Bool-cases, inl, inr, arith, ltb}
use ptf.Step.{Timeval, timeval_subtract}

-- As microseconds.
abbrev pub micros : Timeval → ℕ
micros t = t.sec * 1000000 + t.usec

-- Between two times with less than a million microseconds each, of which the first is not the later,
-- `timeval_subtract` gives the distance, again with less than a million microseconds.
pub timeval_subtract-micros :
    (x y : Timeval)
    → x.usec < 1000000
    → y.usec < 1000000
    → micros x ≤ micros y
    → (d : Timeval) × (timeval_subtract x y ≡ some d)
      × (micros x + micros d ≡ micros y)
      × (d.usec < 1000000)
unfolding timeval_subtract
timeval_subtract-micros x y hx hy h = elim (Bool-cases (ltb y.usec x.usec)) [
  | inl borrows ↦ (
    record { sec = y.sec - x.sec - 1; usec = y.usec + 1000000 - x.usec },
    ground arith,
    ground arith,
    ground arith,
  )
  | inr enough ↦ (
    record { sec = y.sec - x.sec; usec = y.usec - x.usec },
    ground arith,
    ground arith,
    ground arith,
  )
]

-- It refuses where the first is the later.
pub timeval_subtract-refused :
    (x y : Timeval)
    → x.usec < 1000000
    → y.usec < 1000000
    → micros y < micros x
    → timeval_subtract x y ≡ none
unfolding timeval_subtract
timeval_subtract-refused x y hx hy h = ground arith
