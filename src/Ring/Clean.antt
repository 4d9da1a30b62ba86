-- ===== src/Ring/Clean.antt =====
-- The rings of src/ringbuff.h with several producers or consumers rely on more: every slot that
-- holds no item is NULL. What the operations make of that is in this file.
use ptf.Prelude.{
  ℕ, suc, ◌+◌, ◌-◌, ◌%◌, ◌≤◌, ◌<◌, ◌≡◌, sym, ◌∙◌, ◌≢◌, inl, inr, Option, none, some, List, [], ◌∷◌,
  arith, ltb, length, get_or, set, get_or-set_self, get_or-set_ne, length-append, Bool-cases,
}
use native.Mathlib.Decide.{dec_lt, ℕ_discrete}
use ptf.Queue
use ptf.Ring.{Ring, next_index, slot, enqueue, dequeue}
use ptf.Ring.Rep.{Rep, wrap-lt, wrap-ge, next_index-mod, full_turn, step-ne}
use ptf.Ring.Refine.{enqueue_written, enqueue_refused, not_full, full, dequeue-empty, dequeue-cons}

module _ {ℓ} {A : Type ℓ} where
  -- The slots from `h + n` round to just before `h` are NULL.
  abbrev pub Clean : List (Option A) → ℕ → ℕ → ℕ → Type ℓ
  Clean slots size h n = (k : ℕ) → n ≤ k → k < size → get_or slots ((h + k) % size) none ≡ none

-- Two different distances below `size` lead to different slots.
offsets-ne : (size h n k : ℕ) → h < size → n < k → k < size → (h + n) % size ≢ (h + k) % size
offsets-ne size h n k hh nk hk e = elim (dec_lt (h + n) size) [
  | yes a ↦ elim (dec_lt (h + k) size) [
    | yes b ↦ omega (arith, wrap-lt h n size a, wrap-lt h k size b)
    | no b ↦ omega (arith, wrap-lt h n size a, wrap-ge h k size hh hk (omega arith))
  ]
  | no a ↦
      omega (
        arith,
        wrap-ge h n size hh (omega arith) (omega arith),
        wrap-ge h k size hh hk (omega arith),
      )
]

module _ {ℓ} {A : Type ℓ} where
  -- The slot at `m_tail` is free.
  pub tail-null :
      {r : Ring A} {q : List A}
      → Rep r q
      → Clean r.slots r.size r.head (length q)
      → slot r r.tail ≡ none
  tail-null {r} {q} v c = rw v.tail_at (c (length q) (omega arith) v.room)

  extended-Clean :
      {r : Ring A} {q : List A} (x : Option A)
      → Rep r q
      → Clean r.slots r.size r.head (length q)
      → Clean (set r.slots r.tail x) r.size r.head (suc (length q))
  extended-Clean {r} {q} x v c k ge lt =
      get_or-set_ne r.slots r.tail ((r.head + k) % r.size) x none
        (λ e. offsets-ne r.size r.head (length q) k v.head_in (omega arith) lt (sym v.tail_at ∙ e))
      ∙ c k (omega arith) lt

  dequeued-Clean :
      {r : Ring A} {x : A} {q : List A}
      → Rep r (x ∷ q)
      → Clean r.slots r.size r.head (suc (length q))
      → Clean (set r.slots r.head none) r.size (next_index r.size r.head) (length q)
  dequeued-Clean {r} {q} v c k ge lt = elim (ℕ_discrete (suc k) r.size) [
    | yes e ↦
        rw (next_index-mod r.size r.head k v.fits v.head_in, e, full_turn r.size r.head v.head_in)
          (get_or-set_self r.slots r.head none none (omega (arith, v.stored_len, v.head_in)))
    | no ne ↦ rw (next_index-mod r.size r.head k v.fits v.head_in) (
        get_or-set_ne r.slots r.head ((r.head + suc k) % r.size) none none
          (λ e. step-ne r.size r.head k v.head_in (omega arith) (sym e))
        ∙ c (suc k) (omega arith) (omega arith))
  ]

  -- `enqueue` and `dequeue` leave NULL in every slot outside the queue.
  pub enqueue-Clean :
      {r : Ring A} {q : List A} (x : A)
      → Rep r q
      → Clean r.slots r.size r.head (length q)
      → let r' = (enqueue r x).1 in
        Clean r'.slots r'.size r'.head (length (Queue.push (r.size - 1) q x).1)
  unfolding Queue.push
  enqueue-Clean {r} {q} x v c = elim (Bool-cases (ltb (length q) (r.size - 1))) [
    | inl below ↦
        rw (below, enqueue_written r x (not_full v (ground arith)) (inr (tail-null v c)))
          (λ k ge lt. extended-Clean (some x) v c k (omega (arith, length-append q (x ∷ []))) lt)
    | inr above ↦ rw (above, enqueue_refused r x (full v (ground (arith, v.room)))) c
  ]

  pub dequeue-Clean :
      (junk : ℕ) {r : Ring A} (q : List A)
      → Rep r q
      → Clean r.slots r.size r.head (length q)
      → let r' = (dequeue junk r).1 in Clean r'.slots r'.size r'.head (length (Queue.pop q).1)
  unfolding Queue.pop
  dequeue-Clean junk [] v c = rw (dequeue-empty junk v) c
  dequeue-Clean junk (x ∷ q) v c = rw (dequeue-cons junk v) (dequeued-Clean v c)
