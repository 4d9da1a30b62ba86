-- ===== src/Ring/Rep.antt =====
-- What it means that a ring of src/ringbuff.h holds a queue: the window of slots from `m_head` on.
use native.Mathlib.Nat.{mod-eq_of_lt, mod-eq-sub-mod, mod-add-mod}
use native.Mathlib.Decide.{dec_lt}
use ptf.Prelude.{
  ℕ, zero, suc, ◌+◌, ◌-◌, ◌%◌, ◌^◌, ◌≤◌, ◌<◌, ◌≡◌, sym, ap, ◌∙◌, ◌≢◌, Option, none, some, List, [],
  ◌∷◌, ◌++◌, arith, length, get_or, set, get_or-set_ne,
}
use ptf.Ring.{Ring, next_index}

module _ {ℓ} {A : Type ℓ} where
  -- From index `h` on, going round at `size`, the slots hold the items of the list.
  abbrev pub Occupied : List (Option A) → ℕ → ℕ → List A → Type ℓ
  Occupied slots size h [] = Unit
  Occupied slots size h (x ∷ q) =
      (get_or slots h none ≡ some x) × Occupied slots size (next_index size h) q

  -- `r` is well formed and holds exactly `q`, oldest first. One slot always stays free.
  pub record Rep (r : Ring A) (q : List A) : Type ℓ where
    pub big : 1 < r.size
    pub fits : r.size < 2 ^ 32
    pub stored_len : length r.slots ≡ r.size
    pub head_in : r.head < r.size
    pub tail_in : r.tail < r.size
    pub room : length q < r.size
    pub tail_at : r.tail ≡ (r.head + length q) % r.size
    pub stored : Occupied r.slots r.size r.head q

-- Where adding `n < size` to an index below `size` leads.
pub wrap-lt : (h n size : ℕ) → h + n < size → (h + n) % size ≡ h + n
wrap-lt h n size p = mod-eq_of_lt p

pub wrap-ge : (h n size : ℕ) → h < size → n < size → size ≤ h + n → (h + n) % size ≡ h + n - size
wrap-ge h n size p q ge =
    mod-eq-sub-mod {n = h + n} {m = size} ge
    ∙ mod-eq_of_lt {n = h + n - size} {m = size} (omega arith)

pub next_index-lt : (size h : ℕ) → 1 < size → h < size → next_index size h < size
next_index-lt size h p q = omega arith

pub next_index_lem : (size h : ℕ) → size < 2 ^ 32 → h < size → next_index size h ≡ (h + 1) % size
next_index_lem size h fits p = ap (λ k. k % size) (omega arith)

-- Stepping once and then `n` times is stepping `suc n` times.
pub next_index-mod :
    (size h n : ℕ) → size < 2 ^ 32 → h < size → (next_index size h + n) % size ≡ (h + suc n) % size
next_index-mod size h n fits p =
    rw (next_index_lem size h fits p)
      (mod-add-mod (h + 1) size n ∙ ap (λ k. k % size) (omega arith))

-- Fewer than `size` steps round the ring do not come back to the start.
pub step-ne : (size h n : ℕ) → h < size → suc n < size → (h + suc n) % size ≢ h
step-ne size h n p q = elim (dec_lt (h + suc n) size) [
  | yes below ↦ omega (arith, wrap-lt h (suc n) size below)
  | no over ↦ omega (arith, wrap-ge h (suc n) size p q (omega arith))
]

pub full_turn : (size h : ℕ) → h < size → (h + size) % size ≡ h
full_turn size h p = grind arith

module _ {ℓ} {A : Type ℓ} (size : ℕ) (big : 1 < size) (fits : size < 2 ^ 32) where
  -- A write at least as far from the head as the queue is long leaves the queue alone.
  pub Occupied-set :
      (slots : List (Option A)) (v : Option A) (h n i : ℕ) (q : List A)
      → h < size
      → length q ≤ n
      → n < size
      → i ≡ (h + n) % size
      → Occupied slots size h q
      → Occupied (set slots i v) size h q
  Occupied-set slots v h n i [] hh hq hn e o = tt
  Occupied-set slots v h zero i (x ∷ q) hh hq hn e o = absurd (omega arith)
  Occupied-set slots v h (suc n) i (x ∷ q) hh hq hn e o = (
    get_or-set_ne slots i h v none (λ p. step-ne size h n hh hn (sym e ∙ p)) ∙ o.0,
    Occupied-set slots v (next_index size h) n i q (next_index-lt size h big hh) (omega arith)
        (omega arith) (e ∙ sym (next_index-mod size h n fits hh)) o.1,
  )

  -- A full slot just behind the queue extends it.
  pub Occupied-append :
      (slots : List (Option A)) (h i : ℕ) (q : List A) (x : A)
      → h < size
      → i ≡ (h + length q) % size
      → get_or slots i none ≡ some x
      → Occupied slots size h q
      → Occupied slots size h (q ++ (x ∷ []))
  Occupied-append slots h i [] x hh e s o =
      (ap (λ k. get_or slots k none) (omega (arith, wrap-lt h 0 size (omega arith), e)) ∙ s, tt)
  Occupied-append slots h i (y ∷ q) x hh e s o = (
    o.0,
    Occupied-append slots (next_index size h) i q x (next_index-lt size h big hh)
        (e ∙ sym (next_index-mod size h (length q) fits hh)) s o.1,
  )

  -- Clearing the slot at `h` spares a queue that starts behind it and leaves a slot free.
  pub Occupied-clear :
      (slots : List (Option A)) (h : ℕ) (q : List A)
      → h < size
      → suc (length q) < size
      → Occupied slots size (next_index size h) q
      → Occupied (set slots h none) size (next_index size h) q
  Occupied-clear slots h q hh room =
      Occupied-set slots none (next_index size h) (size - 1) h q (next_index-lt size h big hh)
        (omega arith) (omega arith)
        (sym (
          next_index-mod size h (size - 1) fits hh
          ∙ ap (λ k. (h + k) % size) (omega arith)
          ∙ full_turn size h hh))
