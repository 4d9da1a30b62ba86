-- ===== src/Queue.antt =====
-- The abstract view of a ring: a first-in, first-out queue with room for `cap` items.
use ptf.Prelude.{
  ℕ, Bool, true, false, Option, none, some, List, [], ◌∷◌, ◌++◌, length, ltb, if◌then◌else◌,
}

module _ {ℓ} {A : Type ℓ} where
  -- A full queue refuses the item and stays as it is.
  unfoldable pub push : ℕ → List A → A → Bool × List A
  push cap q x = if ltb (length q) cap then (true, q ++ (x ∷ [])) else (false, q)

  unfoldable pub pop : List A → Option A × List A
  pop [] = (none, [])
  pop (x ∷ q) = (some x, q)
