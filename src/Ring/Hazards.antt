-- ===== src/Ring/Hazards.antt =====
-- What src/ringbuff.h does outside the states that hold a queue: the two `continue` statements
-- leave their `do` body for its closing compare-and-swap, with the body's work half done.
use native.Mathlib.Nat.{mod-eq_of_lt}
use ptf.Prelude.{
  ℕ, ◌<◌, lt→ltb, ◌≡◌, refl, true, false, Bool, Option, none, some, List, ◌∷◌, arith, ◌==◌,
}
use ptf.Ring.{Ring, next_index, slot, create, enqueue, dequeue}

next_index-zero : (size : ℕ) → 1 < size → next_index size 0 ≡ 1
next_index-zero size h = mod-eq_of_lt h

module _ {ℓ} {A : Type ℓ} where
  -- With several producers, an `enqueue` that finds room but a non-NULL slot at `m_tail` answers
  -- true and moves `m_tail` on, and every slot is as before: the item is nowhere in the ring.
  pub enqueue_drops :
      (r : Ring A) (x y : A)
      → r.sp ≡ false
      → (next_index r.size r.tail == r.head) ≡ false
      → slot r r.tail ≡ some y
      → enqueue r x ≡ (true, record r { tail = next_index r.size r.tail })
  unfolding enqueue
  enqueue_drops r x y multi room garbage = ground arith

  -- What the constructor makes over memory that starts with a non-NULL word.
  abbrev pub unclean : A → List (Option A) → ℕ → Bool → Ring A
  unclean y raw size sc = record {
    slots = some y ∷ raw;
    size = size;
    head = 0;
    tail = 0;
    sp = false;
    sc = sc;
  }

  -- A new ring of 2 slots or more, with several producers and over memory that starts with a non-NULL
  -- word: the first `enqueue` reports success, and the `dequeue` after it returns that word.
  pub create-enqueue-garbage :
      (junk : ℕ) (raw : List (Option A)) (sc : Bool) (size : ℕ) (x y : A)
      → 1 < size
      → (create (some y ∷ raw) size false sc ≡ some (unclean y raw size sc))
        × ((enqueue (unclean y raw size sc) x).0 ≡ true)
        × ((dequeue junk (enqueue (unclean y raw size sc) x).1).0 ≡ some y)
  unfolding create dequeue
  create-enqueue-garbage junk raw sc size x y big =
      let dropped = enqueue_drops (unclean y raw size sc) x y refl room refl in
      (rw (lt→ltb 1 size big), rw dropped, rw (dropped, next_index-zero size big))
    where
      room : (next_index size 0 == 0) ≡ false
      room = rw (next_index-zero size big)

  -- A `dequeue` that finds NULL in the slot at `m_head`, the ring not being empty, returns NULL and
  -- sets `m_head` to whatever the unassigned `headNew` held.
  pub dequeue_junk :
      (junk : ℕ) (r : Ring A)
      → (r.head == r.tail) ≡ false
      → slot r r.head ≡ none
      → dequeue junk r ≡ (none, record r { head = junk })
  unfolding dequeue
  dequeue_junk junk r more null = ground arith
