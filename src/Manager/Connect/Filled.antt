-- ===== src/Manager/Connect/Filled.antt =====
-- The sockets of a pool that the constructor of src/socketpool.C has filled.
use ptf.Prelude.{
  ℕ, zero, suc, ◌+◌, ◌<◌, ◌≡◌, refl, sym, ◌≢◌, some, List, [], ◌∷◌, ◌++◌, length, length-append,
  ◌==◌, eq_of_==, ne_of_==, get_elem?, Bool-cases, inl, inr, arith,
}
use ptf.Manager.Connect.{fill}

-- No socket is NULL.
abbrev pub NoNull : List ℕ → Type 0
NoNull [] = Unit
NoNull (c ∷ cs) = (c ≢ 0) × NoNull cs

append-NoNull : (q : List ℕ) (c : ℕ) → NoNull q → c ≢ 0 → NoNull (q ++ (c ∷ []))
append-NoNull [] c v ne = (ne, tt)
append-NoNull (d ∷ q) c v ne = (v.0, append-NoNull q c v.1 ne)

pub fill-NoNull :
    (address : ℕ → ℕ) (i n : ℕ) (q : List ℕ)
    → ((k : ℕ) → address k ≢ 0)
    → NoNull q
    → NoNull (fill address i n q)
unfolding fill
fill-NoNull address i zero q ne v = v
fill-NoNull address i (suc n) q ne v =
    fill-NoNull address (i + 1) n (q ++ (address i ∷ [])) ne (append-NoNull q (address i) v (ne i))

append-found :
    (q : List ℕ) (x k c : ℕ) → get_elem? q k ≡ some c → get_elem? (q ++ (x ∷ [])) k ≡ some c
append-found [] x k c e = absurd cc
append-found (d ∷ q) x zero c e = e
append-found (d ∷ q) x (suc k) c e = append-found q x k c e

append-last : (q : List ℕ) (x : ℕ) → get_elem? (q ++ (x ∷ [])) (length q) ≡ some x
append-last [] x = refl
append-last (d ∷ q) x = append-last q x

-- The sockets of a pool in the order of their making.
fill-found :
    (address : ℕ → ℕ) (i n j : ℕ) (q : List ℕ)
    → length q ≡ i
    → ((k : ℕ) → k < i → get_elem? q k ≡ some (address k))
    → j < i + n
    → get_elem? (fill address i n q) j ≡ some (address j)
unfolding fill
fill-found address i zero j q len made h = made j (omega (arith, h))
fill-found address i (suc n) j q len made h =
    fill-found address (i + 1) n j (q ++ (address i ∷ []))
      (omega (arith, len, length-append q (address i ∷ [])))
      (λ k below. elim (Bool-cases (k == i)) [
        | inl same ↦
            let at_i : k ≡ i = eq_of_== k i same in
            rw (at_i, sym len) (append-last q (address (length q)))
        | inr other ↦
            append-found q (address i) k (address k)
              (made k (omega (arith, below, ne_of_== k i other)))
      ])
      (omega (arith, h))

-- The pool's socket of a worker's number
pub socket-found :
    (address : ℕ → ℕ) (j : ℕ) → j < 20 → get_elem? (fill address 0 20 []) j ≡ some (address j)
socket-found address j h =
    fill-found address 0 20 j [] refl (λ k below. absurd (omega (arith, below))) (omega (arith, h))
