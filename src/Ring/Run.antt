-- ===== src/Ring/Run.antt =====
-- Any sequence of calls on a ring of src/ringbuff.h, from one caller at a time.
use ptf.Prelude.{
  ℕ, ◌-◌, ◌≡◌, refl, ◌⊎◌, inl, inr, Bool, true, Option, none, List, [], ◌∷◌, arith, length, ◌∙◌,
}
use ptf.Queue
use ptf.Ring.{Ring, slot, enqueue, dequeue}
use ptf.Ring.Rep.{Rep}
use ptf.Ring.Refine.{enqueue_refines, dequeue_refines}
use ptf.Ring.Clean.{Clean, tail-null, enqueue-Clean, dequeue-Clean}

module _ {ℓ} (A : Type ℓ) where
  pub data Op : Type ℓ where
    put : A → Op
    get : Op

  -- What a caller sees of a call: the Boolean of `enqueue`, or the pointer of `dequeue`.
  pub data Reply : Type ℓ where
    accepted : Bool → Reply
    taken : Option A → Reply

module _ {ℓ} {A : Type ℓ} where
  unfoldable pub run_ring : ℕ → Ring A → List (Op A) → List (Reply A)
  run_ring junk r [] = []
  run_ring junk r (put x ∷ ops) =
      let (done, r') = enqueue r x in accepted done ∷ run_ring junk r' ops
  run_ring junk r (get ∷ ops) = let (out, r') = dequeue junk r in taken out ∷ run_ring junk r' ops

  pub run_queue : ℕ → List A → List (Op A) → List (Reply A)
  run_queue cap q [] = []
  run_queue cap q (put x ∷ ops) =
      let (done, q') = Queue.push cap q x in accepted done ∷ run_queue cap q' ops
  run_queue cap q (get ∷ ops) = let (out, q') = Queue.pop q in taken out ∷ run_queue cap q' ops

  pub size-enqueue : (r : Ring A) (x : A) → (enqueue r x).1.size ≡ r.size
  unfolding enqueue
  size-enqueue r x = ground arith

  pub size-dequeue : (junk : ℕ) (r : Ring A) → (dequeue junk r).1.size ≡ r.size
  unfolding dequeue
  size-dequeue junk r = ground arith

  pub sp-enqueue : (r : Ring A) (x : A) → (enqueue r x).1.sp ≡ r.sp
  unfolding enqueue
  sp-enqueue r x = ground arith

  pub sp-dequeue : (junk : ℕ) (r : Ring A) → (dequeue junk r).1.sp ≡ r.sp
  unfolding dequeue
  sp-dequeue junk r = ground arith

  -- What the writes of `enqueue` rely on: a single producer, or NULL in every free slot.
  abbrev pub Writable : Ring A → List A → Type ℓ
  Writable r q = (r.sp ≡ true) ⊎ Clean r.slots r.size r.head (length q)

  pub tail-Writable :
      {r : Ring A} {q : List A} → Rep r q → Writable r q → (r.sp ≡ true) ⊎ (slot r r.tail ≡ none)
  tail-Writable v (inl one) = inl one
  tail-Writable v (inr c) = inr (tail-null v c)

  pub enqueue-Writable :
      {r : Ring A} {q : List A} (x : A)
      → Rep r q
      → Writable r q
      → Writable (enqueue r x).1 (Queue.push (r.size - 1) q x).1
  enqueue-Writable {r} x v (inl one) = inl (sp-enqueue r x ∙ one)
  enqueue-Writable x v (inr c) = inr (enqueue-Clean x v c)

  dequeue-Writable :
      (junk : ℕ) {r : Ring A} (q : List A)
      → Rep r q
      → Writable r q
      → Writable (dequeue junk r).1 (Queue.pop q).1
  dequeue-Writable junk {r} q v (inl one) = inl (sp-dequeue junk r ∙ one)
  dequeue-Writable junk q v (inr c) = inr (dequeue-Clean junk q v c)

  -- A ring that holds a queue answers every sequence of `enqueue` and `dequeue` calls as the bounded
  -- queue with room for `m_size - 1` items does, if it has a single producer or NULL in its free slots.
  pub run_refines :
      (junk : ℕ) (ops : List (Op A)) {r : Ring A} {q : List A}
      → Rep r q
      → Writable r q
      → run_ring junk r ops ≡ run_queue (r.size - 1) q ops
  unfolding run_ring run_queue
  run_refines junk [] v w = refl
  run_refines junk (put x ∷ ops) {r} v w =
      let (answer, v') = enqueue_refines x v (tail-Writable v w) in
      rw (run_refines junk ops v' (enqueue-Writable x v w), size-enqueue r x, answer)
  run_refines junk (get ∷ ops) {r} {q} v w =
      let (answer, v') = dequeue_refines junk q v in
      rw (run_refines junk ops v' (dequeue-Writable junk q v w), size-dequeue junk r, answer)
