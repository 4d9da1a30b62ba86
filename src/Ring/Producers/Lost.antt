-- ===== src/Ring/Producers/Lost.antt =====
-- How two calls of `enqueue` of src/ringbuff.h at once lose an item and keep another twice.
use ptf.Prelude.{
  ℕ, ◌^◌, ap, ◌≡◌, refl, sym, ◌∙◌, ◌≢◌, ◌+◌, ◌%◌, ◌<◌, false, none, some, [], ◌∷◌, arith, get_or,
  set, get_or-set_self, get_or-set_ne,
}
use ptf.Ring.{Ring, next_index, slot}
use ptf.Ring.Rep.{Rep, wrap-lt, step-ne, next_index_lem, next_index-lt, next_index-mod}
use ptf.Ring.Refine.{extended}
use ptf.Ring.Producers.{
  System, call, load_tail, check, fill, miss, publish, retry, push_on, pick, Reach, start, later,
}

-- Where one and two steps from an index lead, in a ring of more than two slots.
module _ (size h : ℕ) (fits : size < 2 ^ 32) (big : 2 < size) (inside : h < size) where
  once : next_index size h ≡ (h + 1) % size
  once = next_index_lem size h fits inside

  once-ne : next_index size h ≢ h
  once-ne e = step-ne size h 0 inside (omega arith) (sym once ∙ e)

  twice-ne : next_index size (next_index size h) ≢ h
  twice-ne e = step-ne size h 1 inside big (
      sym (next_index-mod size h 1 fits inside)
      ∙ sym
          (next_index_lem size (next_index size h) fits (next_index-lt size h (omega arith) inside))
      ∙ e)

module _ {A : Type 0} where
  -- On any empty ring that is made for several producers, of more than two slots, of which the two
  -- from m_head on are NULL, for any two different items: some interleaving of two producers has
  -- both calls of enqueue return true, and the ring then holds the first item twice and the second
  -- not at all.
  pub lost_item :
      {r : Ring A} (x y : A)
      → r.sp ≡ false
      → x ≢ y
      → Rep r []
      → 2 < r.size
      → slot r r.head ≡ none
      → slot r (next_index r.size r.head) ≡ none
      → (s : System A) × Reach r s
        × (s.accepted ≡ x ∷ y ∷ [])
        × (s.offered ≡ y ∷ x ∷ [])
        × Rep s.ring (x ∷ x ∷ [])
  lost_item {r} x y many apart v big first second =
      let met =
        later
          (later
            (later
              (later (later (later start (pick 0 (call x))) (pick 0 load_tail)) (pick 1 (call y)))
              (pick 1 load_tail))
            (pick 0 (check free)))
          (pick 1 (check free)) in
      let lost =
        later (later (later met (pick 0 (fill many null))) (pick 1 (miss x many mine)))
          (pick 1 (push_on refl)) in
      let round =
        later (later (later lost (pick 0 (retry moved))) (pick 0 load_tail))
          (pick 0 (check free')) in
      (
        _,
        later (later round (pick 0 (fill many null'))) (pick 0 (publish refl)),
        refl,
        refl,
        extended (extended v x (omega arith)) x (omega arith),
      )
    where
      at_tail : r.tail ≡ r.head
      at_tail = v.tail_at ∙ wrap-lt r.head 0 r.size (omega (arith, v.head_in)) ∙ omega arith

      free : next_index r.size r.tail ≢ r.head
      free e = once-ne r.size r.head v.fits big v.head_in (sym (ap (next_index r.size) at_tail) ∙ e)

      moved : next_index r.size r.tail ≢ r.tail
      moved e = free (e ∙ at_tail)

      free' : next_index r.size (next_index r.size r.tail) ≢ r.head
      free' e =
          twice-ne r.size r.head v.fits big v.head_in
            (ap (λ k. next_index r.size (next_index r.size k)) (sym at_tail) ∙ e)

      null : slot r r.tail ≡ none
      null = ap (slot r) at_tail ∙ first

      mine : get_or (set r.slots r.tail (some x)) r.tail none ≡ some x
      mine = get_or-set_self r.slots r.tail (some x) none (omega (arith, v.stored_len, v.tail_in))

      null' : get_or (set r.slots r.tail (some x)) (next_index r.size r.tail) none ≡ none
      null' =
          get_or-set_ne r.slots r.tail (next_index r.size r.tail) (some x) none (λ e. moved (sym e))
          ∙ ap (λ k. slot r (next_index r.size k)) at_tail
          ∙ second
