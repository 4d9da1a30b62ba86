-- ===== src/Ring/Refine.antt =====
-- The functions of src/ringbuff.h on a ring that holds a queue, compared with the operations of the
-- bounded queue.
use native.Mathlib.Nat.{mod-add-mod}
use native.Mathlib.Decide.{dec_lt}
use ptf.Prelude.{
  ℕ, zero, suc, ◌+◌, ◌-◌, ◌%◌, ◌^◌, ◌<◌, ◌≡◌, refl, sym, ap, ◌∙◌, ◌⊎◌, inl, inr, true, false, Bool,
  Option, none, some, List, [], ◌∷◌, ◌++◌, arith, ltb, length, set, get_or-set_self, length-set,
  length-append, ◌==◌, Bool-cases,
}
use ptf.Queue
use ptf.Ring.{Ring, next_index, slot, create, enqueue, dequeue, count, drain}
use ptf.Ring.Rep.{
  Rep, wrap-lt, wrap-ge, next_index-lt, next_index_lem, next_index-mod, Occupied-set,
  Occupied-append, Occupied-clear, full_turn, step-ne,
}

-- The index behind `m_tail`, seen from `m_head`.
pub next-tail :
    (size h n : ℕ)
    → 1 < size
    → size < 2 ^ 32
    → next_index size ((h + n) % size) ≡ (h + suc n) % size
next-tail size h n big fits =
    next_index_lem size ((h + n) % size) fits (omega arith)
    ∙ mod-add-mod (h + n) size 1
    ∙ ap (λ k. k % size) (omega arith)

module _ {ℓ} {A : Type ℓ} where
  -- A ring that the constructor makes, of fewer than 2^32 slots, holds the empty queue, whatever its
  -- memory held before.
  pub create-Rep :
      (raw : List (Option A)) (size : ℕ) (sp sc : Bool) {r : Ring A}
      → length raw ≡ size
      → size < 2 ^ 32
      → create raw size sp sc ≡ some r
      → Rep r []
  unfolding create
  create-Rep raw size sp sc e fits made = ground (arith, wrap-lt 0 0 size)

  module _ {r : Ring A} {q : List A} (v : Rep r q) where
    tail_new : next_index r.size r.tail ≡ (r.head + suc (length q)) % r.size
    tail_new = ap (next_index r.size) v.tail_at ∙ next-tail r.size r.head (length q) v.big v.fits

    pub full : suc (length q) ≡ r.size → (next_index r.size r.tail == r.head) ≡ true
    full e = ground (arith, tail_new, full_turn r.size r.head)

    pub not_full : suc (length q) < r.size → (next_index r.size r.tail == r.head) ≡ false
    not_full p = ground (arith, tail_new, step-ne r.size r.head (length q))

    -- What a successful `enqueue` leaves behind, whichever way it wrote the slot.
    pub extended :
        (x : A)
        → suc (length q) < r.size
        → Rep
            (record r { slots = set r.slots r.tail (some x); tail = next_index r.size r.tail })
            (q ++ (x ∷ []))
    extended x p = record {
      big = v.big;
      fits = v.fits;
      stored_len = length-set r.slots r.tail (some x) ∙ v.stored_len;
      head_in = v.head_in;
      tail_in = next_index-lt r.size r.tail v.big v.tail_in;
      room = omega (arith, length-append q (x ∷ []));
      tail_at =
          tail_new ∙ ap (λ k. (r.head + k) % r.size) (omega (arith, length-append q (x ∷ [])));
      stored =
          Occupied-append r.size v.big v.fits (set r.slots r.tail (some x)) r.head r.tail q x
            v.head_in v.tail_at
            (get_or-set_self r.slots r.tail (some x) none (omega (arith, v.stored_len, v.tail_in)))
            (Occupied-set r.size v.big v.fits r.slots (some x) r.head (length q) r.tail q v.head_in
              (omega arith) v.room v.tail_at v.stored);
    }

  -- Where the slot at `m_tail` takes the item, by a plain write or by a compare-and-swap.
  pub enqueue_written :
      (r : Ring A) (x : A)
      → (next_index r.size r.tail == r.head) ≡ false
      → (r.sp ≡ true) ⊎ (slot r r.tail ≡ none)
      → enqueue r x
        ≡ (true, record r { slots = set r.slots r.tail (some x); tail = next_index r.size r.tail })
  unfolding enqueue
  enqueue_written r x e w = ground arith

  pub enqueue_refused :
      (r : Ring A) (x : A) → (next_index r.size r.tail == r.head) ≡ true → enqueue r x ≡ (false, r)
  unfolding enqueue
  enqueue_refused r x e = rw e

  -- Where the ring has one producer, or its free slots are NULL, `enqueue` is the push of the
  -- bounded queue: the same answer, and the ring then holds the queue that the push gives.
  pub enqueue_refines :
      {r : Ring A} {q : List A} (x : A)
      → Rep r q
      → (r.sp ≡ true) ⊎ (slot r r.tail ≡ none)
      → let (done, r') = enqueue r x in
        let (done', q') = Queue.push (r.size - 1) q x in (done ≡ done') × Rep r' q'
  unfolding Queue.push
  enqueue_refines {r} {q} x v w = elim (Bool-cases (ltb (length q) (r.size - 1))) [
    | inl below ↦
        rw (below, enqueue_written r x (not_full v (ground arith)) w)
          (refl, extended v x (ground arith))
    | inr above ↦ rw (above, enqueue_refused r x (full v (ground (arith, v.room)))) (refl, v)
  ]

  -- The head slot of a ring that holds a queue, and what a `dequeue` leaves.
  pub dequeued :
      {r : Ring A} {x : A} {q : List A} (v : Rep r (x ∷ q))
      → Rep (record r { slots = set r.slots r.head none; head = next_index r.size r.head }) q
  dequeued {r} {x} {q} v = record {
    big = v.big;
    fits = v.fits;
    stored_len = length-set r.slots r.head none ∙ v.stored_len;
    head_in = next_index-lt r.size r.head v.big v.head_in;
    tail_in = v.tail_in;
    room = omega (arith, v.room);
    tail_at = v.tail_at ∙ sym (next_index-mod r.size r.head (length q) v.fits v.head_in);
    stored = Occupied-clear r.size v.big v.fits r.slots r.head q v.head_in v.room v.stored.1;
  }

  empty_test : {r : Ring A} → Rep r [] → (r.head == r.tail) ≡ true
  empty_test {r} v = ground (arith, v.tail_at, wrap-lt r.head 0 r.size, v.head_in)

  more_test : {r : Ring A} {x : A} {q : List A} → Rep r (x ∷ q) → (r.head == r.tail) ≡ false
  more_test {r} {q} v =
      ground (arith, v.tail_at, v.room, v.head_in, step-ne r.size r.head (length q))

  pub dequeue-empty : (junk : ℕ) {r : Ring A} → Rep r [] → dequeue junk r ≡ (none, r)
  unfolding dequeue
  dequeue-empty junk v = rw (empty_test v)

  pub dequeue-cons :
      (junk : ℕ) {r : Ring A} {x : A} {q : List A}
      → Rep r (x ∷ q)
      → dequeue junk r
        ≡ (some x, record r { slots = set r.slots r.head none; head = next_index r.size r.head })
  unfolding dequeue
  dequeue-cons junk v = rw (more_test v, v.stored.0)

  -- `dequeue` is the pop of the queue. The garbage in `headNew` does not matter then.
  pub dequeue_refines :
      (junk : ℕ) {r : Ring A} (q : List A)
      → Rep r q
      → let (out, r') = dequeue junk r in let (out', q') = Queue.pop q in (out ≡ out') × Rep r' q'
  unfolding Queue.pop
  dequeue_refines junk [] v = rw (dequeue-empty junk v) (refl, v)
  dequeue_refines junk (x ∷ q) v = rw (dequeue-cons junk v) (refl, dequeued v)

  -- On a ring that holds a queue, `size()` is the length of the queue.
  pub count-length : {r : Ring A} (q : List A) → Rep r q → count r ≡ length q
  unfolding count
  count-length {r} q v = elim (dec_lt (r.head + length q) r.size) [
    | yes p ↦
        ground (arith, v.tail_at, v.room, v.head_in, v.fits, wrap-lt r.head (length q) r.size p)
    | no p ↦ ground (
      arith,
      v.tail_at,
      v.room,
      v.head_in,
      v.fits,
      wrap-ge r.head (length q) r.size v.head_in v.room,
    )
  ]

  -- On a ring that holds a queue, the destructor ends, after one `dequeue` more than there are items,
  -- and it deletes exactly the items, oldest first.
  pub drain_refines :
      (fuel junk : ℕ) {r : Ring A} (q : List A)
      → Rep r q
      → length q < fuel
      → drain fuel junk r ≡ some q
  unfolding drain
  drain_refines zero junk q v h = absurd (omega arith)
  drain_refines (suc fuel) junk [] v h = rw (dequeue-empty junk v, drain)
  drain_refines (suc fuel) junk (x ∷ q) v h =
      ground (arith, dequeue-cons junk v, drain_refines fuel junk q (dequeued v))
