-- ===== src/Prelude/Family.antt =====
-- Threads by number: what changes when one of them moves, and sums over the first `n`.
use Prim.Native.Nat.{ℕ, zero, suc, ◌+◌, ◌≤◌, ◌<◌}
use mathlib.Core.Path.{◌≡◌, refl}
use mathlib.Core.Logic.{inl, inr}
use native.Mathlib.Omega.{arith}
use ptf.Prelude.Tests.{◌==◌, if◌then◌else◌, Bool-cases}

module _ {ℓ} {A : Type ℓ} where
  abbrev pub update : (ℕ → A) → ℕ → A → ℕ → A
  update f i a j = if i == j then a else f j

  abbrev pub sum_of : (A → ℕ) → ℕ → (ℕ → A) → ℕ
  sum_of w zero f = 0
  sum_of w (suc n) f = w (f n) + sum_of w n f

  sum_of-beyond :
      (w : A → ℕ) (n : ℕ) (f : ℕ → A) (i : ℕ) (a : A)
      → n ≤ i
      → sum_of w n (update f i a) ≡ sum_of w n f
  sum_of-beyond w zero f i a h = refl
  sum_of-beyond w (suc n) f i a h = ground (arith, sum_of-beyond w n f i a)

  -- A move of one of the first `n` changes the sum by what it changes there.
  pub sum_of-update :
      (w : A → ℕ) (n : ℕ) (f : ℕ → A) (i : ℕ) (a : A)
      → i < n
      → sum_of w n (update f i a) + w (f i) ≡ sum_of w n f + w a
  sum_of-update w zero f i a h = absurd (omega arith)
  sum_of-update w (suc n) f i a h = elim (Bool-cases (i == n)) [
    | inl here ↦ ground (arith, sum_of-beyond w n f i a)
    | inr before ↦ ground (arith, sum_of-update w n f i a)
  ]
