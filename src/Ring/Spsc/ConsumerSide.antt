-- ===== src/Ring/Spsc/ConsumerSide.antt =====
-- The consumer of src/ringbuff.h, polling first, keeps the invariant at every access.
use ptf.Prelude.{
  ℕ, ◌≡◌, refl, sym, ap, ◌∙◌, ◌≢◌, true, Option, none, some, List, [], ◌∷◌, ◌++◌, arith, length,
  set, get_or-set_ne,
}
use ptf.Ring.{Ring, next_index, slot}
use ptf.Ring.Rep.{Occupied, Occupied-clear, step-ne, wrap-lt}
use ptf.Ring.Spsc.{
  Producer, resting, loaded, checked, written, Consumer, idle, entering, at_head, fetched, nonempty,
  cleared, Consume, poll, barge, load_head, fetch, empty, more, clear, stale, advance,
}
use ptf.Ring.Spsc.Invariant.{
  Seen, More, Stored, Known, Pending, Shape, Shape-set, Inv, second_in, second_at,
}

module _ {A : Type 0} where
  -- With something published, `m_head` is not `m_tail`.
  apart : {r : Ring A} (q : List A) → Shape r q → More q → r.head ≢ r.tail
  apart [] v m e = absurd m
  apart {r} (x ∷ q) v m e = step-ne r.size r.head (length q) v.head_in v.room (sym (e ∙ v.tail_at))

  some_left : {r : Ring A} (q : List A) → Shape r q → r.head ≢ r.tail → More q
  some_left {r} [] v ne =
      ne (sym (v.tail_at ∙ wrap-lt r.head 0 r.size (omega (arith, v.head_in)) ∙ omega arith))
  some_left (x ∷ q) v ne = tt

  More-Seen : (p : Option A) (q : List A) → Seen p q → More q
  More-Seen p [] s = s
  More-Seen p (x ∷ q) s = tt

  fetch-Seen :
      (r : Ring A) (h : ℕ) (q : List A)
      → h ≡ r.head
      → More q
      → Occupied r.slots r.size r.head q
      → Seen (slot r h) q
  fetch-Seen r h [] e m o = m
  fetch-Seen r h (x ∷ q) e m o = rw e o.0

  -- An item that the producer has written survives the clearing of the slot at `m_head`.
  Pending-clear :
      (r : Ring A) (p : Producer A)
      → r.head ≢ r.tail
      → Pending r.slots r.tail p
      → Pending (set r.slots r.head none) r.tail p
  Pending-clear r (written x u) ne e = get_or-set_ne r.slots r.head r.tail none none ne ∙ e
  Pending-clear r resting ne e = tt
  Pending-clear r (loaded x t) ne e = tt
  Pending-clear r (checked x t u) ne e = tt

  Known-pop :
      (size tail : ℕ) (p : Producer A) (x : A) (q : List A)
      → Known size tail p (x ∷ q)
      → Known size tail p q
  Known-pop size tail resting x q k = tt
  Known-pop size tail (loaded y t) x q k = k
  Known-pop size tail (checked y t u) x q k = (k.0, k.1, omega (arith, k.2))
  Known-pop size tail (written y u) x q k = (k.0, omega (arith, k.1))

  -- What is left of the queue after an access that handed out `out`.
  abbrev Left : Ring A → Producer A → Consumer A → List A → List A → Type 0
  Left r p c out q = (q' : List A) × (q ≡ out ++ q') × Inv r p c q'

  moved :
      {r : Ring A} {p : Producer A} {c : Consumer A} {q : List A} (c' : Consumer A)
      → Inv r p c q
      → Stored r c' q
      → Left r p c' [] q
  moved {q} c' v s =
      (q, refl, record { shape = v.shape; stored = s; known = v.known; pending = v.pending })

  clears :
      {r : Ring A} {p : Producer A} {h : ℕ} {x : A} (q : List A)
      → Inv r p (nonempty h (some x)) q
      → Left (record r { slots = set r.slots h none }) p (cleared x (next_index r.size h)) [] q
  clears [] v = absurd v.stored.1
  clears {r} {p} (y ∷ q) v = rw v.stored.0 (
    y ∷ q,
    refl,
    record {
      shape = Shape-set v.shape r.head none;
      stored = (
        ground (arith, v.stored.1),
        refl,
        Occupied-clear r.size v.big v.fits r.slots r.head q v.head_in v.room v.stored.2.1,
      );
      known = v.known;
      pending = Pending-clear r p (apart (y ∷ q) v.shape tt) v.pending;
    },
  )

  advances :
      {r : Ring A} {p : Producer A} {x : A} {u : ℕ} (q : List A)
      → Inv r p (cleared x u) q
      → Left (record r { head = u }) p idle (x ∷ []) q
  advances [] v = absurd v.stored
  advances {r} {p} (y ∷ q) v = (
    q,
    ap (λ z. z ∷ q) (sym v.stored.0),
    record {
      shape = record {
        big = v.big;
        fits = v.fits;
        stored_len = v.stored_len;
        head_in = second_in v;
        tail_in = v.tail_in;
        room = omega (arith, v.room);
        tail_at = second_at v;
      };
      stored = v.stored.2;
      known = Known-pop r.size r.tail p y q v.known;
      pending = v.pending;
    },
  )

  -- Every access of a consumer that polls keeps the invariant, over the queue less what it handed
  -- out, which was at the front.
  pub Consume-Inv :
      {r r' : Ring A} {p : Producer A} {c c' : Consumer A} {q out : List A}
      → Consume true r c r' c' out
      → Inv r p c q
      → (q' : List A) × (q ≡ out ++ q') × Inv r' p c' q'
  Consume-Inv {q} (poll ne) v = moved entering v (some_left q v.shape ne, v.stored)
  Consume-Inv (barge e) v = absurd (cc)
  Consume-Inv {r} load_head v = moved (at_head r.head) v (refl, v.stored.0, v.stored.1)
  Consume-Inv {r} {q} (fetch {h}) v =
      moved (fetched h (slot r h)) v
        (v.stored.0, fetch-Seen r h q v.stored.0 v.stored.1 v.stored.2, v.stored.2)
  Consume-Inv {q} (empty {h} {p} e) v =
      absurd (apart q v.shape (More-Seen p q v.stored.1) (sym v.stored.0 ∙ e))
  Consume-Inv (more {h} {p} ne) v = moved (nonempty h p) v v.stored
  Consume-Inv {q} clear v = clears q v
  Consume-Inv {q = []} (stale junk e) v = absurd v.stored.1
  Consume-Inv {q = x ∷ q} (stale junk e) v = absurd (cc (v.stored.1))
  Consume-Inv {q} advance v = advances q v
