-- ===== src/Ring/Producers/Alone.antt =====
-- A call of `enqueue` of src/ringbuff.h that no other thread interferes with.
use ptf.Prelude.{
  ℕ, ◌≡◌, refl, sym, ap, ◌≢◌, inl, inr, true, false, Bool-cases, Option-cases, List, [], ◌∷◌, arith,
  ◌==◌, if◌then◌else◌, ◌++◌, subst, eq_of_==, ne_of_==,
}
use ptf.Ring.{Ring, next_index, slot, enqueue, fill_if_null}
use ptf.Ring.Refine.{enqueue_refused}
use ptf.Prelude.Family.{update}
use ptf.Ring.Producers.{
  Label, Move, offered_by, accepted_by, System, Producer, resting, loaded, call, load_tail, refuse,
  check, fill, miss, publish, push_on, pick, boot, Reach, start, later,
}

module _ {A : Type 0} where
  updated : (pcs : ℕ → Producer A) (i : ℕ) (p : Producer A) → update pcs i p i ≡ p
  updated pcs i p = rw (same i)
    where
      same : (k : ℕ) → (k == k) ≡ true
      same k = ground arith

  -- Some interleaving from `r` leads to this ring, with producer `i` at `p` and these items offered and
  -- accepted.
  abbrev pub Leads : Ring A → ℕ → Ring A → Producer A → List A → List A → Type 0
  Leads r i ring p offered accepted =
      (s : System A) × Reach r s
      × (s.ring ≡ ring)
      × (s.pcs i ≡ p)
      × (s.offered ≡ offered)
      × (s.accepted ≡ accepted)

  then_moves :
      {r ring ring' : Ring A} {i : ℕ} {p p' : Producer A} {l : Label A} {xs ys : List A}
      → Leads r i ring p xs ys
      → Move ring p ring' p' l
      → Leads r i ring' p' (offered_by l ++ xs) (accepted_by l ++ ys)
  then_moves {ring} {ring'} {i} {p'} {l} (s, w, at, stands, off, acc) m = (
    _,
    later w (
        pick i (
          subst (λ k. Move k (s.pcs i) ring' p' l) (sym at)
            (subst (λ k. Move ring k ring' p' l) (sym stands) m))),
    refl,
    updated s.pcs i p',
    ap (λ k. offered_by l ++ k) off,
    ap (λ k. accepted_by l ++ k) acc,
  )

  ready : (r : Ring A) (i : ℕ) (x : A) → Leads r i r (loaded x r.tail) (x ∷ []) []
  ready r i x = then_moves (then_moves (boot r, start, refl, refl, refl, refl) (call x)) load_tail

  -- Behind the test of `m_head`, with the slot free or taken.
  passed :
      (r : Ring A) (i : ℕ) (x : A)
      → r.sp ≡ false
      → next_index r.size r.tail ≢ r.head
      → Leads r i
          (record r { slots = fill_if_null r.slots r.tail x; tail = next_index r.size r.tail })
          resting
          (x ∷ [])
          (x ∷ [])
  passed r i x many free = elim (Option-cases (slot r r.tail)) [
    | inl null ↦
        rw (fill_if_null, null)
          (then_moves (then_moves (then_moves (ready r i x) (check free)) (fill many null))
            (publish refl))
    | inr (y, taken) ↦
        rw (fill_if_null, taken)
          (then_moves (then_moves (then_moves (ready r i x) (check free)) (miss y many taken))
            (push_on refl))
  ]

  enqueue_swapped :
      (r : Ring A) (x : A)
      → (next_index r.size r.tail == r.head) ≡ false
      → r.sp ≡ false
      → enqueue r x ≡ (
        true,
        record r { slots = fill_if_null r.slots r.tail x; tail = next_index r.size r.tail },
      )
  unfolding enqueue
  enqueue_swapped r x room many = rw (room, many) refl

  -- With several producers allowed, the moves of one producer alone, from any ring, lead to the
  -- ring that `enqueue` gives, with the producer at rest, and the item is accepted exactly if
  -- `enqueue` returns true.
  pub alone :
      (r : Ring A) (i : ℕ) (x : A)
      → r.sp ≡ false
      → Leads r i (enqueue r x).1 resting (x ∷ []) (if (enqueue r x).0 then x ∷ [] else [])
  alone r i x many = elim (Bool-cases (next_index r.size r.tail == r.head)) [
    | inl full ↦
        rw (enqueue_refused r x full)
          (then_moves (ready r i x) (refuse (eq_of_== (next_index r.size r.tail) r.head full)))
    | inr room ↦
        rw (enqueue_swapped r x room many)
          (passed r i x many (ne_of_== (next_index r.size r.tail) r.head room))
  ]
