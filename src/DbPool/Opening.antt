-- ===== src/DbPool/Opening.antt =====
-- When the constructor of src/connpool.C returns.
use ptf.Prelude.{
  ℕ, zero, suc, ◌+◌, ◌-◌, ◌≤◌, ◌<◌, ◌≡◌, refl, sym, ◌∙◌, ◌≢◌, ltb, ltb→lt, Bool, true, false, none,
  some, arith, Bool-cases, inl, inr,
}
use ptf.DbPool.{open_all, open_pool}

true-ne-false : true ≢ false
true-ne-false e = cc

module _ (opens : ℕ → ℕ → Bool) where
  -- A connection that never opens is tried for ever.
  open_all-stuck :
      (fuel i left calls : ℕ)
      → ((k : ℕ) → opens i k ≡ false)
      → open_all opens fuel i (suc left) calls ≡ none
  unfolding open_all
  open_all-stuck zero i left calls never = refl
  open_all-stuck (suc fuel) i left calls never =
      rw (never calls) (open_all-stuck fuel i left (calls + 1) never)

  not_ready :
      (ready i calls : ℕ)
      → ((j k : ℕ) → ready ≤ k → opens j k ≡ true)
      → opens i calls ≡ false
      → calls < ready
  not_ready ready i calls up e = elim (Bool-cases (ltb calls ready)) [
    | inl h ↦ ltb→lt calls ready h
    | inr h ↦ absurd (true-ne-false (sym (up i calls (ground (arith, h))) ∙ e))
  ]

  -- From the call `ready` on every connection opens: the calls before it are lost at most.
  open_all-ready :
      (ready fuel i left calls : ℕ)
      → ((j k : ℕ) → ready ≤ k → opens j k ≡ true)
      → left + (ready - calls) < fuel
      → (n : ℕ) × (open_all opens fuel i left calls ≡ some n) × (n ≤ calls + left + (ready - calls))
  unfolding open_all
  open_all-ready ready zero i left calls up enough = absurd (omega (arith, enough))
  open_all-ready ready (suc fuel) i zero calls up enough = (calls, refl, omega arith)
  open_all-ready ready (suc fuel) i (suc left) calls up enough = elim (Bool-cases (opens i calls)) [
    | inl e ↦
        let (n, result, bound) =
          open_all-ready ready fuel (i + 1) left (calls + 1) up (omega (arith, enough)) in
        (n, rw e result, omega (arith, bound))
    | inr e ↦
        let early : calls < ready = not_ready ready i calls up e in
        let (n, result, bound) =
          open_all-ready ready fuel i (suc left) (calls + 1) up (omega (arith, enough, early)) in
        (n, rw e result, omega (arith, bound, early))
  ]

  -- If one connection never opens, the constructor never returns.
  pub open_pool-stuck :
      (fuel size : ℕ) → 0 < size → ((k : ℕ) → opens 0 k ≡ false) → open_pool opens fuel size ≡ none
  unfolding open_pool
  open_pool-stuck fuel zero h never = absurd (omega (arith, h))
  open_pool-stuck fuel (suc left) h never = open_all-stuck fuel 0 left 0 never

  -- If the database can be reached from some call of `open` on, the constructor returns: with a call for
  -- each connection, and one for each failure before.
  pub open_pool-ready :
      (ready size : ℕ)
      → ((j k : ℕ) → ready ≤ k → opens j k ≡ true)
      → (n : ℕ) × (open_pool opens (size + ready + 1) size ≡ some n) × (n ≤ size + ready)
  unfolding open_pool
  open_pool-ready ready size up =
      let (n, result, bound) = open_all-ready ready (size + ready + 1) 0 size 0 up (omega arith) in
      (n, result, omega (arith, bound))
