-- ===== src/Ring/Producers/Accepted.antt =====
-- What any number of producers of src/ringbuff.h leave in the ring.
use mathlib.Core.List.{Mem, Mem-prop, not-mem-nil, mem-cons_of_mem, eq-or-mem_of_mem-cons}
use mathlib.Core.Logic.Or
use mathlib.Core.Option.{some-injective}
use native.Mathlib.Decide.{ℕ_discrete}
use ptf.Prelude.{
  ℕ, suc, ◌+◌, ◌%◌, ◌<◌, ◌≡◌, refl, sym, subst, ap, ◌∙◌, ◌≢◌, inl, inr, false, Bool-cases, Option,
  none, some, List, [], ◌∷◌, ◌++◌, arith, ◌==◌, length, length-append, get_or, set, get_or-set_self,
  get_or-set_ne, length-set,
}
use ptf.Ring.{Ring, next_index, slot}
use ptf.Ring.Rep.{Rep, Occupied, Occupied-append, next_index-lt, full_turn}
use ptf.Ring.Refine.{next-tail}
use ptf.Prelude.Family.{update}
use ptf.Ring.Producers.{
  Producer, Label, Move, call, load_tail, refuse, check, write, put, fill, miss, publish, retry,
  push_on, again, offered_by, accepted_by, System, Step, pick, Reach, start, later,
}
use ptf.Ring.Producers.Known.{Full, From, Own, Occupied-fill, Move-Own, Move-kept}

module _ {A : Type 0} where
  -- The ring holds as many items as were accepted, each of them one that was offered.
  pub record Holds (r : Ring A) (offered accepted : List A) : Type 0 where
    pub queue : List A
    pub rep : Rep r queue
    pub as_many : length queue ≡ length accepted
    pub source : From r.slots offered

  record Inv (s : System A) : Type 0 where
    many : s.ring.sp ≡ false
    holds : Holds s.ring s.offered s.accepted
    own : (i : ℕ) → Own s.ring.size s.ring.head s.ring.slots s.offered (s.pcs i)

  filled :
      {r : Ring A} {xs ys : List A} {x : A} {t : ℕ}
      → get_or r.slots t none ≡ none
      → Mem x xs
      → t < r.size
      → Holds r xs ys
      → Holds (record r { slots = set r.slots t (some x) }) xs ys
  filled {r} {xs} {x} {t} free m lt v = record {
    queue = v.queue;
    rep = record {
      big = v.rep.big;
      fits = v.rep.fits;
      stored_len = length-set r.slots t (some x) ∙ v.rep.stored_len;
      head_in = v.rep.head_in;
      tail_in = v.rep.tail_in;
      room = v.rep.room;
      tail_at = v.rep.tail_at;
      stored = Occupied-fill r.slots r.size r.head t x v.queue free v.rep.stored;
    };
    as_many = v.as_many;
    source = sourced;
  }
    where
      sourced : From (set r.slots t (some x)) xs
      sourced i y e = elim (ℕ_discrete t i) [
        | yes same ↦
            subst (λ z. Mem z xs)
              (some-injective x y (
                sym (get_or-set_self r.slots t (some x) none (omega (arith, v.rep.stored_len, lt)))
                ∙ ap (λ k. get_or (set r.slots t (some x)) k none) same
                ∙ e))
              m
        | no other ↦ v.source i y (sym (get_or-set_ne r.slots t i (some x) none other) ∙ e)
      ]

  -- Moving `m_tail` past a full slot.
  advanced :
      {r : Ring A} {xs ys : List A} {z : A} {u : ℕ}
      → Full r.slots r.tail
      → u ≡ next_index r.size r.tail
      → u ≢ r.head
      → Holds r xs ys
      → Holds (record r { tail = u }) xs (z ∷ ys)
  advanced {r} {u} (y, full) e ne v = record {
    queue = v.queue ++ (y ∷ []);
    rep = record {
      big = v.rep.big;
      fits = v.rep.fits;
      stored_len = v.rep.stored_len;
      head_in = v.rep.head_in;
      tail_in = rw e (next_index-lt r.size r.tail v.rep.big v.rep.tail_in);
      room = rw one_more room_left;
      tail_at = rw one_more new_tail;
      stored =
          Occupied-append r.size v.rep.big v.rep.fits r.slots r.head r.tail v.queue y v.rep.head_in
            v.rep.tail_at full v.rep.stored;
    };
    as_many = one_more ∙ ap suc v.as_many;
    source = v.source;
  }
    where
      one_more : length (v.queue ++ (y ∷ [])) ≡ suc (length v.queue)
      one_more = omega (arith, length-append v.queue (y ∷ []))

      new_tail : u ≡ (r.head + suc (length v.queue)) % r.size
      new_tail =
          e
          ∙ ap (next_index r.size) v.rep.tail_at
          ∙ next-tail r.size r.head (length v.queue) v.rep.big v.rep.fits

      room_left : suc (length v.queue) < r.size
      room_left = ground (arith, v.rep.room, new_tail, ne, full_turn r.size r.head v.rep.head_in)

  Move-Holds :
      {r r' : Ring A} {p p' : Producer A} {l : Label A} {xs ys : List A}
      → Move r p r' p' l
      → r.sp ≡ false
      → Own r.size r.head r.slots xs p
      → Holds r xs ys
      → Holds r' (offered_by l ++ xs) (accepted_by l ++ ys)
  Move-Holds (call x) many o v = record {
    queue = v.queue;
    rep = v.rep;
    as_many = v.as_many;
    source = λ i y e. mem-cons_of_mem x (v.source i y e);
  }
  Move-Holds load_tail many o v = v
  Move-Holds (refuse e) many o v = v
  Move-Holds (check ne) many o v = v
  Move-Holds (write single) many o v = absurd cc
  Move-Holds put many o v = absurd o
  Move-Holds (fill _ e) many (m, lt, _, _) v = filled e m lt v
  Move-Holds (miss y _ e) many o v = v
  Move-Holds {r} (publish {x} {t} {u} e) many (m, lt, at, ne, full) v =
      advanced (subst (Full r.slots) (sym e) full) (at ∙ ap (next_index r.size) (sym e)) ne v
  Move-Holds (retry ne) many o v = v
  Move-Holds {r} (push_on {x} {t} {u} e) many (m, lt, at, ne, full) v =
      advanced (subst (Full r.slots) (sym e) full) (at ∙ ap (next_index r.size) (sym e)) ne v
  Move-Holds (again ne) many o v = v

  Move-sp : {r r' : Ring A} {p p' : Producer A} {l : Label A} → Move r p r' p' l → r'.sp ≡ r.sp
  Move-sp (call x) = refl
  Move-sp load_tail = refl
  Move-sp (refuse e) = refl
  Move-sp (check ne) = refl
  Move-sp (write single) = refl
  Move-sp put = refl
  Move-sp (fill many e) = refl
  Move-sp (miss y many e) = refl
  Move-sp (publish e) = refl
  Move-sp (retry ne) = refl
  Move-sp (push_on e) = refl
  Move-sp (again ne) = refl

  Step-Inv : {s t : System A} → Step s t → Inv s → Inv t
  Step-Inv {s} (pick i {r} {p} {l} m) v = record {
    many = Move-sp m ∙ v.many;
    holds = Move-Holds m v.many (v.own i) v.holds;
    own = own';
  }
    where
      own' : (j : ℕ) → Own r.size r.head r.slots (offered_by l ++ s.offered) (update s.pcs i p j)
      own' j = elim (Bool-cases (i == j)) [
        | inl same ↦
            rw same
              (Move-Own s.offered m v.many v.holds.rep.tail_in v.holds.rep.stored_len (v.own i))
        | inr other ↦ rw other (Move-kept s.offered m v.many (s.pcs j) (v.own j))
      ]

  reached :
      {r : Ring A} {s : System A}
      → r.sp ≡ false
      → Rep r []
      → ((i : ℕ) → slot r i ≡ none)
      → Reach r s
      → Inv s
  reached many v null start = record {
    many = many;
    holds = record { queue = []; rep = v; as_many = refl; source = λ i y e. absurd (cc (null i)) };
    own = λ i. tt;
  }
  reached many v null (later w m) = Step-Inv m (reached many v null w)

  Occupied-From :
      (slots : List (Option A)) {xs : List A} (size h : ℕ) (q : List A)
      → From slots xs
      → Occupied slots size h q
      → (x : A) → Mem x q
      → Mem x xs
  Occupied-From slots size h [] from o x m = absurd (not-mem-nil m)
  Occupied-From slots {xs} size h (y ∷ q) from o x m =
      Or.elim Mem-prop (eq-or-mem_of_mem-cons m) (λ e. subst (λ z. Mem z xs) (sym e) (from h y o.0))
        (Occupied-From slots size (next_index size h) q from o.1 x)

  -- On an empty ring that is made for several producers and whose slots are NULL, whatever the
  -- number of producers and the interleaving of their accesses to enqueue: the ring is well formed
  -- and holds as many items as calls have returned true, and every one of them was offered.
  pub Reach-Rep :
      {r : Ring A} {s : System A}
      → r.sp ≡ false
      → Rep r []
      → ((i : ℕ) → slot r i ≡ none)
      → Reach r s
      → (q : List A) × Rep s.ring q
        × (length q ≡ length s.accepted)
        × ((x : A) → Mem x q → Mem x s.offered)
  Reach-Rep {s} many v null w =
      let held = (reached many v null w).holds in
      (
        held.queue,
        held.rep,
        held.as_many,
        Occupied-From s.ring.slots s.ring.size s.ring.head held.queue held.source held.rep.stored,
      )
