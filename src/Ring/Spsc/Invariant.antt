-- ===== src/Ring/Spsc/Invariant.antt =====
-- What one producer and one polling consumer of src/ringbuff.h keep true between any two accesses.
use ptf.Prelude.{
  ℕ, suc, ◌+◌, ◌%◌, ◌^◌, ◌<◌, ◌≡◌, refl, sym, subst, ap, ◌∙◌, ◌≢◌, Option, none, some, List, [],
  ◌∷◌, ◌++◌, append-nil, arith, length, length-append, length-set, get_or, set, get_or-set_self,
}
use ptf.Ring.{Ring, next_index}
use ptf.Ring.Rep.{Occupied, next_index-lt, next_index-mod, Occupied-set, Occupied-append, full_turn}
use ptf.Ring.Refine.{next-tail}
use ptf.Ring.Spsc.{
  Producer, resting, loaded, checked, written, Consumer, idle, entering, at_head, fetched, nonempty,
  cleared, Produce, load_tail, refuse, check, write_slot, publish,
}

module _ {A : Type 0} where
  -- The first item of the queue is what the consumer read.
  abbrev pub Seen : Option A → List A → Type 0
  Seen p [] = ⊥
  Seen p (x ∷ q) = p ≡ some x

  abbrev pub More : List A → Type 0
  More [] = ⊥
  More (x ∷ q) = Unit

  -- The slots of the published items, as the consumer has left them.
  abbrev pub Stored : Ring A → Consumer A → List A → Type 0
  Stored r (cleared p u) [] = ⊥
  Stored r (cleared p u) (x ∷ q) =
      (p ≡ x) × (u ≡ next_index r.size r.head) × Occupied r.slots r.size u q
  Stored r idle q = Occupied r.slots r.size r.head q
  Stored r entering q = More q × Occupied r.slots r.size r.head q
  Stored r (at_head h) q = (h ≡ r.head) × More q × Occupied r.slots r.size r.head q
  Stored r (fetched h p) q = (h ≡ r.head) × Seen p q × Occupied r.slots r.size r.head q
  Stored r (nonempty h p) q = (h ≡ r.head) × Seen p q × Occupied r.slots r.size r.head q

  -- What the producer knows: its copy of `m_tail`, and that one more item fits.
  abbrev pub Known : (size tail : ℕ) → Producer A → List A → Type 0
  Known size tail resting q = Unit
  Known size tail (loaded x t) q = t ≡ tail
  Known size tail (checked x t u) q =
      (t ≡ tail) × (u ≡ next_index size tail) × (suc (length q) < size)
  Known size tail (written x u) q = (u ≡ next_index size tail) × (suc (length q) < size)

  -- An item that is written and not yet published stands at `m_tail`.
  abbrev pub Pending : List (Option A) → ℕ → Producer A → Type 0
  Pending slots tail (written x u) = get_or slots tail none ≡ some x
  Pending slots tail _ = Unit

  -- The part of the invariant that names no thread.
  pub record Shape (r : Ring A) (q : List A) : Type 0 where
    pub big : 1 < r.size
    pub fits : r.size < 2 ^ 32
    pub stored_len : length r.slots ≡ r.size
    pub head_in : r.head < r.size
    pub tail_in : r.tail < r.size
    pub room : length q < r.size
    pub tail_at : r.tail ≡ (r.head + length q) % r.size

  pub record Inv (r : Ring A) (p : Producer A) (c : Consumer A) (q : List A) : Type 0 where
    pub shape : Shape r q
    pub open shape use *
    pub stored : Stored r c q
    pub known : Known r.size r.tail p q
    pub pending : Pending r.slots r.tail p

  pub Shape-set :
      {r : Ring A} {q : List A}
      → Shape r q
      → (i : ℕ) (w : Option A) → Shape (record r { slots = set r.slots i w }) q
  Shape-set {r} v i w = record {
    big = v.big;
    fits = v.fits;
    stored_len = length-set r.slots i w ∙ v.stored_len;
    head_in = v.head_in;
    tail_in = v.tail_in;
    room = v.room;
    tail_at = v.tail_at;
  }

  module _ {r : Ring A} {p : Producer A} {c : Consumer A} {q : List A} (v : Inv r p c q) where
    -- A write at `m_tail` spares what is published.
    spared :
        (w : Option A)
        → Occupied r.slots r.size r.head q
        → Occupied (set r.slots r.tail w) r.size r.head q
    spared w =
        Occupied-set r.size v.big v.fits r.slots w r.head (length q) r.tail q v.head_in
          (omega arith) v.room v.tail_at

    tail_new : next_index r.size r.tail ≡ (r.head + suc (length q)) % r.size
    tail_new = ap (next_index r.size) v.tail_at ∙ next-tail r.size r.head (length q) v.big v.fits

    -- The test of `enqueue` leaves room for the item and for the free slot.
    room_left : next_index r.size r.tail ≢ r.head → suc (length q) < r.size
    room_left ne = ground (arith, v.room, tail_new, full_turn r.size r.head v.head_in)

    joined :
        (x : A)
        → get_or r.slots r.tail none ≡ some x
        → Occupied r.slots r.size r.head q
        → Occupied r.slots r.size r.head (q ++ (x ∷ []))
    joined x = Occupied-append r.size v.big v.fits r.slots r.head r.tail q x v.head_in v.tail_at

  -- The window behind an item whose slot the consumer has cleared.
  module _ {r : Ring A} {p : Producer A} {x y : A} {u : ℕ} {q : List A}
      (v : Inv r p (cleared x u) (y ∷ q)) where
    pub second_in : u < r.size
    second_in = rw v.stored.1 (next_index-lt r.size r.head v.big v.head_in)

    pub second_at : r.tail ≡ (u + length q) % r.size
    second_at =
        rw v.stored.1 (v.tail_at ∙ sym (next_index-mod r.size r.head (length q) v.fits v.head_in))

  Stored-write :
      {r : Ring A} {p : Producer A} (c : Consumer A) (q : List A) (w : Option A)
      → Inv r p c q
      → Stored (record r { slots = set r.slots r.tail w }) c q
  Stored-write (cleared p u) [] w v = absurd v.stored
  Stored-write {r} (cleared p u) (y ∷ q) w v = (
    v.stored.0,
    v.stored.1,
    Occupied-set r.size v.big v.fits r.slots w u (length q) r.tail q (second_in v) (omega arith)
        (omega (arith, v.room)) (second_at v) v.stored.2,
  )
  Stored-write idle q w v = spared v w v.stored
  Stored-write entering q w v = (v.stored.0, spared v w v.stored.1)
  Stored-write (at_head h) q w v = (v.stored.0, v.stored.1, spared v w v.stored.2)
  Stored-write (fetched h p) q w v = (v.stored.0, v.stored.1, spared v w v.stored.2)
  Stored-write (nonempty h p) q w v = (v.stored.0, v.stored.1, spared v w v.stored.2)

  Seen-append : (p : Option A) (q : List A) (x : A) → Seen p q → Seen p (q ++ (x ∷ []))
  Seen-append p (y ∷ q) x s = s
  Seen-append p [] x s = absurd s

  More-append : (q : List A) (x : A) → More q → More (q ++ (x ∷ []))
  More-append (y ∷ q) x s = s
  More-append [] x s = absurd s

  -- Moving `m_tail` past a full slot publishes its item.
  Stored-publish :
      {r : Ring A} (c : Consumer A) (q : List A) (x : A) (u : ℕ)
      → Inv r (written x u) c q
      → Stored (record r { tail = u }) c (q ++ (x ∷ []))
  Stored-publish (cleared p w) [] x u v = absurd v.stored
  Stored-publish {r} (cleared p w) (y ∷ q) x u v = (
    v.stored.0,
    v.stored.1,
    Occupied-append r.size v.big v.fits r.slots w r.tail q x (second_in v) (second_at v) v.pending
        v.stored.2,
  )
  Stored-publish idle q x u v = joined v x v.pending v.stored
  Stored-publish entering q x u v = (More-append q x v.stored.0, joined v x v.pending v.stored.1)
  Stored-publish (at_head h) q x u v =
      (v.stored.0, More-append q x v.stored.1, joined v x v.pending v.stored.2)
  Stored-publish (fetched h p) q x u v =
      (v.stored.0, Seen-append p q x v.stored.1, joined v x v.pending v.stored.2)
  Stored-publish (nonempty h p) q x u v =
      (v.stored.0, Seen-append p q x v.stored.1, joined v x v.pending v.stored.2)

  -- Every access of the producer keeps the invariant, over the queue with what it published.
  pub Produce-Inv :
      {r r' : Ring A} {p p' : Producer A} {c : Consumer A} {q out : List A}
      → Produce r p r' p' out
      → Inv r p c q
      → Inv r' p' c (q ++ out)
  Produce-Inv {q} (load_tail x) v =
      rw (append-nil q) (record { shape = v.shape; stored = v.stored; known = refl; pending = tt })
  Produce-Inv {q} (refuse e) v =
      rw (append-nil q) (record { shape = v.shape; stored = v.stored; known = tt; pending = tt })
  Produce-Inv {r} {q} (check {x} {t} ne) v = rw (append-nil q) (record {
    shape = v.shape;
    stored = v.stored;
    known = (
      v.known,
      ap (next_index r.size) v.known,
      room_left v (subst (λ k. next_index r.size k ≢ r.head) v.known ne),
    );
    pending = tt;
  })
  Produce-Inv {r} {c} {q} (write_slot {x} {t} {u}) v =
      rw (append-nil q, v.known.0)
        (record {
          shape = Shape-set v.shape r.tail (some x);
          stored = Stored-write c q (some x) v;
          known = (v.known.1, v.known.2);
          pending =
              get_or-set_self r.slots r.tail (some x) none (omega (arith, v.stored_len, v.tail_in));
        })
  Produce-Inv {r} {c} {q} (publish {x} {u}) v = record {
    shape = record {
      big = v.big;
      fits = v.fits;
      stored_len = v.stored_len;
      head_in = v.head_in;
      tail_in = rw v.known.0 (next_index-lt r.size r.tail v.big v.tail_in);
      room = omega (arith, length-append q (x ∷ []), v.known.1);
      tail_at =
          v.known.0
          ∙ tail_new v
          ∙ ap (λ k. (r.head + k) % r.size) (omega (arith, length-append q (x ∷ [])));
    };
    stored = Stored-publish c q x u v;
    known = tt;
    pending = tt;
  }
