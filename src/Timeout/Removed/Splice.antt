-- ===== src/Timeout/Removed/Splice.antt =====
-- A list of the nodes of src/timeoutqueue.C without one of them.
use mathlib.Core.Option.{some-injective}
use ptf.Prelude.{ℕ, ◌≡◌, refl, sym, subst, ap, ◌∙◌, ◌≢◌, some, List, [], ◌∷◌, ◌++◌, ne→==}
use ptf.Timeout.{TimeoutNode, Memory, free}
use ptf.Timeout.Chain.{Linked, Absent, Apart}

pub free-ne : (a b : ℕ) (mem : Memory) → b ≢ a → free a mem b ≡ mem b
free-ne a b mem ne = rw (ne→== b a ne)

-- A list that `mem` and `mem'` agree on, away from three addresses.
Linked-away :
    (mem mem' : Memory) (p a y : ℕ)
    → ((z : ℕ) → z ≢ p → z ≢ a → z ≢ y → mem' z ≡ mem z)
    → (before b : ℕ) (xs : List ℕ) → Absent p xs
    → Absent a xs
    → Absent y xs
    → Linked mem before b xs
    → Linked mem' before b xs
Linked-away mem mem' p a y same before b [] np na ny l = l
Linked-away mem mem' p a y same before b (x ∷ xs) np na ny (at, live, (n, found, par, rest)) = (
  at,
  live,
  (
    n,
    same x np.0 na.0 ny.0 ∙ found,
    par,
    Linked-away mem mem' p a y same x n.next xs np.1 na.1 ny.1 rest,
  ),
)

-- The node behind the first ones of a list, and what is behind it.
pub cell_at :
    (mem : Memory) (before b : ℕ) (xs : List ℕ) (x : ℕ) (ys : List ℕ)
    → Linked mem before b (xs ++ (x ∷ ys))
    → (c : ℕ) × Linked mem c x (x ∷ ys)
cell_at mem before b [] x ys (at, live, cell) = (before, (refl, live, cell))
cell_at mem before b (w ∷ xs) x ys (at, live, (n, found, par, rest)) =
    cell_at mem w n.next xs x ys rest

pub Apart-suffix : (xs ys : List ℕ) → Apart (xs ++ ys) → Apart ys
Apart-suffix [] ys apart = apart
Apart-suffix (x ∷ xs) ys apart = Apart-suffix xs ys apart.1

Absent-suffix : (a : ℕ) (xs ys : List ℕ) → Absent a (xs ++ ys) → Absent a ys
Absent-suffix a [] ys away = away
Absent-suffix a (x ∷ xs) ys away = Absent-suffix a xs ys away.1

-- A list starts at no address that is not on it, but at 0.
start-ne :
    (mem : Memory) (before b x : ℕ) (ys : List ℕ)
    → x ≢ 0
    → Absent x ys
    → Linked mem before b ys
    → b ≢ x
start-ne mem before b x [] live away at e = live (sym e ∙ at)
start-ne mem before b x (y ∷ ys) live away (at, _, _) e = away.0 (sym at ∙ e)

-- `a`, between `p` and what follows, and memory before and after `deTqueue`.
module _ (mem mem' : Memory) (p a : ℕ) (m n : TimeoutNode) (ys : List ℕ) (p_found : mem p ≡ some m)
    (p_after : mem' p ≡ some (record m { next = n.next })) (follow : Linked mem a n.next ys)
    (y_after : (k : TimeoutNode)
      → mem n.next ≡ some k
      → n.next ≢ 0
      → mem' n.next ≡ some (record k { parent = p }))
    (same : (z : ℕ) → z ≢ p → z ≢ a → z ≢ n.next → mem' z ≡ mem z) where
  behind :
      (zs : List ℕ) (b : ℕ)
      → b ≡ n.next
      → Apart (p ∷ a ∷ zs)
      → Linked mem a b zs
      → Linked mem' p b zs
  behind [] b e apart at = at
  behind (z ∷ zs) b e (np, (na, nz)) (at, live, (k, found, par, rest)) =
      let here : n.next ≡ z = sym e ∙ at in
      (
        at,
        live,
        (
          record k { parent = p },
          ap mem' (sym here) ∙ y_after k (ap mem here ∙ found) (λ null. live (sym here ∙ null)),
          refl,
          Linked-away mem mem' p a n.next same z k.next zs np.1.1 na.1
              (subst (λ w. Absent w zs) (sym here) nz.0) rest,
        ),
      )

  pub spliced :
      (before b : ℕ) (xs : List ℕ)
      → Apart (xs ++ (p ∷ a ∷ ys))
      → Linked mem before b (xs ++ (p ∷ a ∷ ys))
      → Linked mem' before b (xs ++ (p ∷ ys))
  spliced before b [] apart (at, live, (k, found, par, rest)) = (
    at,
    live,
    (
      record m { next = n.next },
      p_after,
      ap (λ c. c.parent) (some-injective m k (sym p_found ∙ found)) ∙ par,
      behind ys n.next refl apart follow,
    ),
  )
  spliced before b (x ∷ xs) (away, apart) (at, live, (k, found, par, rest)) =
      let others = Absent-suffix x xs (p ∷ a ∷ ys) away in
      (
        at,
        live,
        (
          k,
          same x (λ e. others.0 (sym e)) (λ e. others.1.0 (sym e))
                (λ e. start-ne mem a n.next x ys live others.1.1 follow (sym e))
              ∙ found,
          par,
          spliced x k.next xs apart rest,
        ),
      )
