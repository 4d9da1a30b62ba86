-- ===== src/Ring.antt =====
-- src/ringbuff.h: `TRingbuffer<T>`, as it behaves when no other thread interferes. The slots are
-- pointers, so a slot is an `Option`, and `none` is NULL. Indices are `unsigned int`, 32 bits wide.
-- The `do … while` loops of `enqueue` and `dequeue` end after one round here, since nobody else
-- moves `m_tail` or `m_head`: a `continue` goes to the closing compare-and-swap, which succeeds.
pub mod Rep
pub mod Refine
pub mod Clean
pub mod Run
pub mod Hazards
pub mod Spsc
pub mod Producers
mod Tests
use ptf.Prelude.{
  ℕ, zero, suc, ◌+◌, ◌-◌, ◌%◌, ◌^◌, Bool, true, false, Option, none, some, List, [], ◌∷◌, ◌==◌, ltb,
  leb, if◌then◌else◌, get_or, set,
}

pub record Ring {ℓ} (A : Type ℓ) : Type ℓ where
  pub slots : List (Option A)
  pub size : ℕ
  pub head : ℕ
  pub tail : ℕ
  pub sp : Bool
  pub sc : Bool

-- `(i + 1) % m_size` on `unsigned int`
abbrev pub next_index : ℕ → ℕ → ℕ
next_index size i = (i + 1) % 2 ^ 32 % size

module _ {ℓ} {A : Type ℓ} where
  -- The constructor: `none` is the failed `assert(size > 1)`. `new T*[size]` clears nothing, so
  -- the first contents `raw` are whatever the memory holds.
  unfoldable pub create : List (Option A) → ℕ → Bool → Bool → Option (Ring A)
  create raw size sp sc =
      if ltb 1 size
      then some (record { slots = raw; size = size; head = 0; tail = 0; sp = sp; sc = sc })
      else none

  -- The slot that an index names; an index out of range has no slot.
  abbrev pub slot : Ring A → ℕ → Option A
  slot r i = get_or r.slots i none

  -- The compare-and-swap of a slot against NULL, as `enqueue` makes it.
  abbrev pub fill_if_null : List (Option A) → ℕ → A → List (Option A)
  fill_if_null slots i item = elim (get_or slots i none) [
    | none ↦ set slots i (some item)
    | some _ ↦ slots
  ]

  pub enqueue : Ring A → A → Bool × Ring A
  enqueue r item =
      let tail_new = next_index r.size r.tail in
      if tail_new == r.head
      then (false, r)
      else if r.sp
      then (true, record r { slots = set r.slots r.tail (some item); tail = tail_new })
      else (true, record r { slots = fill_if_null r.slots r.tail item; tail = tail_new })

  -- `junk` is what the local `headNew` holds before it is assigned: the `continue` on a NULL slot
  -- reaches the closing compare-and-swap with it.
  pub dequeue : ℕ → Ring A → Option A × Ring A
  dequeue junk r = if r.head == r.tail then (none, r) else elim (slot r r.head) [
    | none ↦ (none, record r { head = junk })
    | some p ↦
        (some p, record r { slots = set r.slots r.head none; head = next_index r.size r.head })
  ]

  pub count : Ring A → ℕ
  count r =
      if leb r.head r.tail then r.tail - r.head else (r.size + 2 ^ 32 - r.head + r.tail) % 2 ^ 32

  -- The destructor: it dequeues and deletes until it meets NULL. The result lists what it deleted;
  -- `none` means that the fuel ran out.
  pub drain : ℕ → ℕ → Ring A → Option (List A)
  drain zero junk r = none
  drain (suc fuel) junk r =
      let (out, r') = dequeue junk r in
      elim out [
        | none ↦ some []
        | some p ↦ elim (drain fuel junk r') [ none ↦ none | some ps ↦ some (p ∷ ps) ]
      ]
