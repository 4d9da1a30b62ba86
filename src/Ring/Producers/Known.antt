-- ===== src/Ring/Producers/Known.antt =====
-- What a producer of src/ringbuff.h knows of the ring, and that no move of another makes it false.
use mathlib.Core.List.{Mem, mem-cons_self, mem-cons_of_mem}
use ptf.Prelude.{
  ℕ, ◌<◌, ◌≡◌, refl, ◌∙◌, ◌≢◌, false, Option, none, some, List, [], ◌∷◌, ◌++◌, arith, length,
  get_or, set, get_or-set_self, get_or-set_ne,
}
use ptf.Ring.{Ring, next_index}
use ptf.Ring.Rep.{Occupied}
use ptf.Ring.Producers.{
  Producer, resting, entered, loaded, checked, stored, missed, Label, Move, call, load_tail, refuse,
  check, written, write, put, fill, miss, publish, retry, push_on, again, offered_by,
}

module _ {A : Type 0} where
  -- The slot holds an item.
  abbrev pub Full : List (Option A) → ℕ → Type 0
  Full slots i = (y : A) × (get_or slots i none ≡ some y)

  -- Every item in the slots is one of these.
  abbrev pub From : List (Option A) → List A → Type 0
  From slots xs = (i : ℕ) (y : A) → get_or slots i none ≡ some y → Mem y xs

  -- What a producer knows of the ring: its item is among those offered, its copy of `m_tail` is an index,
  -- the next index is not `m_head`, and after the compare-and-swap the slot is not NULL; it is not the
  -- single producer.
  abbrev pub Own : (size head : ℕ) → List (Option A) → List A → Producer A → Type 0
  Own size head slots xs resting = Unit
  Own size head slots xs (entered x) = Mem x xs
  Own size head slots xs (loaded x t) = Mem x xs × (t < size)
  Own size head slots xs (checked x t u) =
      Mem x xs × (t < size) × (u ≡ next_index size t) × (u ≢ head)
  Own size head slots xs (stored x t u) =
      Mem x xs × (t < size) × (u ≡ next_index size t) × (u ≢ head) × Full slots t
  Own size head slots xs (missed x t u) =
      Mem x xs × (t < size) × (u ≡ next_index size t) × (u ≢ head) × Full slots t
  Own size head slots xs (written x u) = ⊥

  -- What the other producers know survives while full slots stay full.
  Own-kept :
      (size head : ℕ) (slots slots' : List (Option A)) (xs xs' : List A)
      → ((i : ℕ) → Full slots i → Full slots' i)
      → ((x : A) → Mem x xs → Mem x xs')
      → (p : Producer A) → Own size head slots xs p
      → Own size head slots' xs' p
  Own-kept size head slots slots' xs xs' f g resting o = tt
  Own-kept size head slots slots' xs xs' f g (entered x) o = g x o
  Own-kept size head slots slots' xs xs' f g (loaded x t) o = (g x o.0, o.1)
  Own-kept size head slots slots' xs xs' f g (checked x t u) (m, b, e, ne) = (g x m, b, e, ne)
  Own-kept size head slots slots' xs xs' f g (stored x t u) (m, b, e, ne, full) =
      (g x m, b, e, ne, f t full)
  Own-kept size head slots slots' xs xs' f g (missed x t u) (m, b, e, ne, full) =
      (g x m, b, e, ne, f t full)
  Own-kept size head slots slots' xs xs' f g (written x u) o = absurd o

  -- The compare-and-swap of a NULL slot leaves every other slot, and so what is published.
  pub fill-ne :
      (slots : List (Option A)) (t i : ℕ) (x y : A)
      → get_or slots t none ≡ none
      → get_or slots i none ≡ some y
      → get_or (set slots t (some x)) i none ≡ some y
  fill-ne slots t i x y free e = get_or-set_ne slots t i (some x) none (λ same. cc) ∙ e

  pub Occupied-fill :
      (slots : List (Option A)) (size h t : ℕ) (x : A) (q : List A)
      → get_or slots t none ≡ none
      → Occupied slots size h q
      → Occupied (set slots t (some x)) size h q
  Occupied-fill slots size h t x [] free o = tt
  Occupied-fill slots size h t x (y ∷ q) free o =
      (fill-ne slots t h x y free o.0, Occupied-fill slots size (next_index size h) t x q free o.1)

  -- What a move leaves a producer with, given what it knew.
  pub Move-Own :
      {r r' : Ring A} {p p' : Producer A} {l : Label A} (xs : List A)
      → Move r p r' p' l
      → r.sp ≡ false
      → r.tail < r.size
      → length r.slots ≡ r.size
      → Own r.size r.head r.slots xs p
      → Own r'.size r'.head r'.slots (offered_by l ++ xs) p'
  Move-Own xs (call x) many b len o = mem-cons_self
  Move-Own xs load_tail many b len o = (o, b)
  Move-Own xs (refuse e) many b len o = tt
  Move-Own xs (check ne) many b len o = (o.0, o.1, refl, ne)
  Move-Own xs (write single) many b len o = absurd cc
  Move-Own xs put many b len o = absurd o
  Move-Own {r} xs (fill {x} {t} _ e) many b len (m, lt, at, ne) =
      (m, lt, at, ne, (x, get_or-set_self r.slots t (some x) none (omega (arith, len, lt))))
  Move-Own xs (miss y _ e) many b len (m, lt, at, ne) = (m, lt, at, ne, (y, e))
  Move-Own xs (publish e) many b len o = tt
  Move-Own xs (retry ne) many b len o = o.0
  Move-Own xs (push_on e) many b len o = tt
  Move-Own xs (again ne) many b len o = o.0

  -- What a move leaves the others with.
  pub Move-kept :
      {r r' : Ring A} {p p' : Producer A} {l : Label A} (xs : List A)
      → Move r p r' p' l
      → r.sp ≡ false
      → (q : Producer A) → Own r.size r.head r.slots xs q
      → Own r'.size r'.head r'.slots (offered_by l ++ xs) q
  Move-kept {r} xs (call x) many q o =
      Own-kept r.size r.head r.slots r.slots xs (x ∷ xs) (λ i f. f) (λ y m. mem-cons_of_mem x m) q o
  Move-kept xs load_tail many q o = o
  Move-kept xs (refuse e) many q o = o
  Move-kept xs (check ne) many q o = o
  Move-kept xs (write single) many q o = absurd cc
  Move-kept xs put many q o = o
  Move-kept {r} xs (fill {x} {t} _ e) many q o =
      Own-kept r.size r.head r.slots (set r.slots t (some x)) xs xs
        (λ i (y, f). (y, fill-ne r.slots t i x y e f)) (λ y m. m) q o
  Move-kept xs (miss y _ e) many q o = o
  Move-kept xs (publish e) many q o = o
  Move-kept xs (retry ne) many q o = o
  Move-kept xs (push_on e) many q o = o
  Move-kept xs (again ne) many q o = o
