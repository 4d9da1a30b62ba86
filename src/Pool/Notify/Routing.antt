-- ===== src/Pool/Notify/Routing.antt =====
-- `order` of src/mptthreadpool.C: which worker it changes.
use ptf.Prelude.{
  ℕ, zero, suc, ◌≡◌, refl, ap, ◌≢◌, Bool, Option, none, some, List, [], ◌∷◌, get_elem?, set,
}
use ptf.Prelude.Int.{pos}
use ptf.Event.{Command}
use ptf.Pool.Notify.{ThreadData, order_thread, order}

module _ {ℓ} {A : Type ℓ} where
  get_elem?-set_self :
      (xs : List A) (i : ℕ) {x : A} (y : A)
      → get_elem? xs i ≡ some x
      → get_elem? (set xs i y) i ≡ some y
  get_elem?-set_self [] i y e = absurd cc
  get_elem?-set_self (a ∷ xs) zero y e = refl
  get_elem?-set_self (a ∷ xs) (suc i) y e = get_elem?-set_self xs i y e

  get_elem?-set_ne :
      (xs : List A) (i j : ℕ) (y : A) → i ≢ j → get_elem? (set xs i y) j ≡ get_elem? xs j
  get_elem?-set_ne [] i j y h = refl
  get_elem?-set_ne (a ∷ xs) zero zero y h = absurd (h refl)
  get_elem?-set_ne (a ∷ xs) zero (suc j) y h = refl
  get_elem?-set_ne (a ∷ xs) (suc i) zero y h = refl
  get_elem?-set_ne (a ∷ xs) (suc i) (suc j) y h = get_elem?-set_ne xs i j y (λ e. h (ap suc e))

-- The worker with the index does what `order_thread` says.
pub order-found :
    (threads : List ThreadData) (cmd : Command) (i : ℕ) (written : Bool) {td : ThreadData}
    → get_elem? threads i ≡ some td
    → get_elem? (order threads (some cmd) (pos i) written).1 i
      ≡ some (order_thread td cmd written).1
unfolding order
order-found threads cmd i written {td} e =
    rw (e, order) (get_elem?-set_self threads i (order_thread td cmd written).1 e)

-- The others stay as they are.
pub order-other :
    (threads : List ThreadData) (cmd : Command) (i j : ℕ) (written : Bool)
    → i ≢ j
    → get_elem? (order threads (some cmd) (pos i) written).1 j ≡ get_elem? threads j
unfolding order
order-other threads cmd i j written ne = step (get_elem? threads i) refl
  where
    step :
        (o : Option ThreadData)
        → get_elem? threads i ≡ o
        → get_elem? (order threads (some cmd) (pos i) written).1 j ≡ get_elem? threads j
    step none e = rw (e, order)
    step (some td) e =
        rw (e, order) (get_elem?-set_ne threads i j (order_thread td cmd written).1 ne)
