-- ===== src/Ring/Spsc/Safety.antt =====
-- What one producer and one consumer of src/ringbuff.h can rely on, and the race of a consumer that
-- does not poll.
use ptf.Prelude.{
  ℕ, ◌<◌, ◌≡◌, refl, sym, ap, ◌∙◌, ◌≢◌, true, false, none, List, [], ◌∷◌, ◌++◌, append_assoc,
  length, subst, arith, ◌+◌, ◌%◌,
}
use ptf.Ring.{Ring, next_index, slot}
use ptf.Ring.Rep.{Rep, wrap-lt, step-ne, next_index_lem}
use ptf.Ring.Spsc.{
  System, idle, fetched, nonempty, load_tail, check, write_slot, publish, barge, load_head, fetch,
  more, stale, Step, produces, consumes, boot, Reach, start, later,
}
use ptf.Ring.Spsc.Invariant.{Stored, Inv, Produce-Inv}
use ptf.Ring.Spsc.ConsumerSide.{Consume-Inv}

module _ {A : Type 0} where
  -- The queue between what was handed out and what was published.
  abbrev pub Between : System A → Type 0
  Between s = (q : List A) × (s.sent ≡ s.got ++ q) × Inv s.ring s.producer s.consumer q

  boot-Between : {r : Ring A} → Rep r [] → Between (boot r)
  boot-Between v = (
    [],
    refl,
    record {
      shape = record {
        big = v.big;
        fits = v.fits;
        stored_len = v.stored_len;
        head_in = v.head_in;
        tail_in = v.tail_in;
        room = v.room;
        tail_at = v.tail_at;
      };
      stored = v.stored;
      known = tt;
      pending = tt;
    },
  )

  Step-Between : {s t : System A} → Step true s t → Between s → Between t
  Step-Between {s} (produces {out} m) (q, e, v) =
      (q ++ out, rw (e, append_assoc s.got q out), Produce-Inv m v)
  Step-Between {s} (consumes {out} m) (q, e, v) =
      let (q', split, v') = Consume-Inv m v in
      (q', rw (e, split) (sym (append_assoc s.got out q')), v')

  reached : {r : Ring A} {s : System A} → Rep r [] → Reach true r s → Between s
  reached v start = boot-Between v
  reached v (later w m) = Step-Between m (reached v w)

  -- With one producer, and one consumer that polls before each `dequeue`, on a ring that starts
  -- empty: whatever the interleaving, what was handed out is the first part of what was published,
  -- in the same order, and less than a ring's size is under way.
  pub fifo :
      {r : Ring A} {s : System A}
      → Rep r []
      → Reach true r s
      → (q : List A) × (s.sent ≡ s.got ++ q) × (length q < s.ring.size)
  fifo v w = let (q, e, inv) = reached v w in (q, e, inv.room)

  not-Stored-null : (r : Ring A) (h : ℕ) (q : List A) → ¬ Stored r (nonempty h none) q
  not-Stored-null r h [] o = o.1
  not-Stored-null r h (x ∷ q) o = cc (o.1)

  -- Such a consumer never stands before a NULL that it read from a ring it then finds not empty, so
  -- the unassigned `headNew` is never stored.
  pub never_stale :
      {r : Ring A} {s : System A}
      → Rep r []
      → Reach true r s
      → (h : ℕ) → s.consumer ≢ nonempty h none
  never_stale {s} v w h e =
      let (q, _, inv) = reached v w in
      not-Stored-null s.ring h q (subst (λ c. Stored s.ring c q) e inv.stored)

  -- A consumer that calls `dequeue` without polling can lose the ring: while an item is published
  -- between its read of the slot and its test of `m_tail`, it returns NULL and sets `m_head` to
  -- whatever `headNew` held, from any empty ring whose free slots are NULL.
  pub unpolled_race :
      {r : Ring A} (x : A) (junk : ℕ)
      → Rep r []
      → slot r r.head ≡ none
      → (s : System A) × Reach false r s
        × (s.ring.head ≡ junk)
        × (s.sent ≡ x ∷ [])
        × (s.got ≡ [])
        × (s.consumer ≡ idle)
  unpolled_race {r} x junk v null =
      let read : Reach false r (record (boot r) { consumer = fetched r.head none }) =
        subst (λ p. Reach false r (record (boot r) { consumer = fetched r.head p })) null
          (later (later (later start (consumes (barge refl))) (consumes load_head))
            (consumes fetch)) in
      let filled =
        later
          (later (later (later read (produces (load_tail x))) (produces (check free)))
            (produces write_slot))
          (produces publish) in
      (
        _,
        later (later filled (consumes (more moved_on))) (consumes (stale junk refl)),
        refl,
        refl,
        refl,
        refl,
      )
    where
      at_tail : r.head ≡ r.tail
      at_tail = sym (v.tail_at ∙ wrap-lt r.head 0 r.size (omega (arith, v.head_in)) ∙ omega arith)

      moved_on : r.head ≢ next_index r.size r.tail
      moved_on = λ e. step-ne r.size r.head 0 v.head_in v.big (
          sym (
            e
            ∙ next_index_lem r.size r.tail v.fits v.tail_in
            ∙ ap (λ k. (k + 1) % r.size) (sym at_tail)))

      free : next_index r.size r.tail ≢ r.head
      free = λ e. moved_on (sym e)
