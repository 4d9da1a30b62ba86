-- ===== src/RingTest/InTurn.antt =====
-- The producers and the consumer of src/test/test_ringbuffer.C, one after the other.
use Prim.Native.Nat.{min}
use native.Mathlib.Nat.{add-mul, suc-mul}
use ptf.Http.Text.{Text}
use ptf.Prelude.{
  upto, length-upto, ℕ, zero, suc, ◌+◌, ◌-◌, ◌*◌, ◌%◌, ◌^◌, ◌<◌, ◌≤◌, ◌≡◌, refl, sym, ap, ap₂,
  lt→ltb, subst, ◌∙◌, ◌⊎◌, inl, inr, true, false, not, Option, none, some, List, [], ◌∷◌, ◌++◌,
  append-nil, append_assoc, map, length, replicate, arith, ltb, Bool-cases, get_or, length-append,
}
use ptf.Queue
use ptf.Ring.{Ring, create, enqueue}
use ptf.Ring.Rep.{Rep}
use ptf.Ring.Refine.{create-Rep, enqueue_refines, dequeue-empty, dequeue-cons, dequeued}
use ptf.Ring.Run.{size-enqueue, Writable, tail-Writable, enqueue-Writable}
use ptf.RingTest.Parsed.{read_options-Sane}
use ptf.RingTest.{
  read_options, defaults, Options, QData, new_ring, assign, produce, produce_all, consume,
}

-- The queue after `k` pushes of the numbers from `n` on, with room for `cap` items
pushes : (cap k n : ℕ) → List ℕ → List ℕ
pushes cap zero n q = q
pushes cap (suc k) n q = pushes cap k (n + 1) (Queue.push cap q n).1

pushes-min :
    (cap k n : ℕ) (q : List ℕ)
    → length q ≤ cap
    → pushes cap k n q ≡ q ++ upto n (min k (cap - length q))
unfolding pushes Queue.push
pushes-min cap zero n q h = sym (ap (λ j. q ++ upto n j) nothing ∙ append-nil q)
  where
    nothing : min 0 (cap - length q) ≡ 0
    nothing = omega arith
pushes-min cap (suc k) n q h = elim (Bool-cases (ltb (length q) cap)) [
  | inl below ↦ rw below (
      pushes-min cap k (n + 1) (q ++ (n ∷ [])) (ground (arith, longer))
      ∙ append_assoc q (n ∷ []) (upto (n + 1) (min k (cap - length (q ++ (n ∷ [])))))
      ∙ ap (λ j. q ++ upto n j) (one_more below))
  | inr above ↦ rw above (
      pushes-min cap k (n + 1) q h
      ∙ ap (λ j. q ++ upto (n + 1) j) (full above k)
      ∙ ap (λ j. q ++ upto n j) (sym (full above (suc k))))
]
  where
    longer : length (q ++ (n ∷ [])) ≡ suc (length q)
    longer = omega (arith, length-append q (n ∷ []))

    one_more :
        ltb (length q) cap ≡ true
        → suc (min k (cap - length (q ++ (n ∷ [])))) ≡ min (suc k) (cap - length q)
    one_more below = ground (arith, longer)

    full : ltb (length q) cap ≡ false → (j : ℕ) → min j (cap - length q) ≡ 0
    full above j = ground arith

-- The loop of `producer` pushes its numbers one after the other.
produce-Rep :
    (k n : ℕ) {r : Ring ℕ} {q : List ℕ}
    → Rep r q
    → Writable r q
    → Rep (produce k n r).1 (pushes (r.size - 1) k n q)
unfolding produce pushes
produce-Rep zero n v w = v
produce-Rep (suc k) n {r} {q} v w =
    let (_, v') = enqueue_refines n v (tail-Writable v w) in
    subst
      (λ s.
        Rep (produce k (n + 1) (enqueue r n).1).1
          (pushes (s - 1) k (n + 1) (Queue.push (r.size - 1) q n).1))
      (size-enqueue r n) (produce-Rep k (n + 1) v' (enqueue-Writable n v w))

same_run : (r : Ring ℕ) (j k n m : ℕ) → j ≡ k → n ≡ m → (produce j n r).1 ≡ (produce k m r).1
same_run r j k n m e e' = ap₂ (λ a b. (produce a b r).1) e e'

-- Going on where the one before left off is one longer loop.
produce-plus :
    (j k n : ℕ) (r : Ring ℕ) → (produce k (n + j) (produce j n r).1).1 ≡ (produce (j + k) n r).1
unfolding produce
produce-plus zero k n r = same_run r k (0 + k) (n + 0) n (omega arith) (omega arith)
produce-plus (suc j) k n r =
    same_run (produce j (n + 1) (enqueue r n).1).1 k k (n + suc j) (n + 1 + j) refl (omega arith)
    ∙ produce-plus j k (n + 1) (enqueue r n).1
    ∙ same_run r (suc (j + k)) (suc j + k) n n (omega arith) refl

-- The starts of the producers leave no gap, and none overlaps another.
assigned :
    (total i n : ℕ)
    → (i + n) * total ≤ 2 ^ 31
    → 0 < total
    → (ps : List QData) × (assign total i n ≡ some ps)
      × ((r : Ring ℕ) → produce_all ps r ≡ (produce (n * total) (i * total) r).1)
unfolding assign produce_all produce
assigned total i zero h p =
    ([], refl, λ r. same_run r 0 (0 * total) (i * total) (i * total) (omega arith) refl)
assigned total i (suc n) h p =
    let split : (i + suc n) * total ≡ i * total + suc n * total = add-mul i (suc n) total in
    let one : suc n * total ≡ n * total + total = suc-mul n total in
    let next : (i + 1) * total ≡ i * total + total = suc_total in
    let fits : (i + 1 + n) * total ≤ 2 ^ 31 = subst (λ k. k * total ≤ 2 ^ 31) (omega arith) h in
    let (ps, gives, runs) = assigned total (i + 1) n fits p in
    (
      record { start = i * total; total = total } ∷ ps,
      rw (lt→ltb (i * total) (2 ^ 31) (omega (arith, h, split, one, p)), gives) refl,
      λ r.
          runs (produce total (i * total) r).1
          ∙ same_run (produce total (i * total) r).1 (n * total) (n * total) ((i + 1) * total)
              (i * total + total) refl next
          ∙ produce-plus total (n * total) (i * total) r
          ∙ same_run r (total + n * total) (suc n * total) (i * total) (i * total)
              (omega (arith, one)) refl,
    )
  where
    suc_total : (i + 1) * total ≡ i * total + total
    suc_total = add-mul i 1 total ∙ omega arith

consume-Rep :
    (k junk : ℕ) (q : List ℕ) (r : Ring ℕ)
    → Rep r q
    → (consume (length q + k) junk r).0 ≡ map (λ n. some n) q ++ replicate k none
unfolding consume
consume-Rep k junk [] r v = ap (λ j. (consume j junk r).0) start ∙ nulls k
  where
    start : length {A = ℕ} [] + k ≡ k
    start = omega arith

    nulls : (j : ℕ) → (consume j junk r).0 ≡ replicate j none
    nulls zero = refl
    nulls (suc j) = rw (dequeue-empty junk v) (ap (λ os. none ∷ os) (nulls j))
consume-Rep k junk (x ∷ q) r v =
    ap (λ j. (consume j junk r).0) counted
    ∙ rw (dequeue-cons junk v, consume)
        (ap (λ os. some x ∷ os) (consume-Rep k junk q _ (dequeued v)))
  where
    counted : length (x ∷ q) + k ≡ suc (length q + k)
    counted = omega arith

-- What is handed out of a ring that starts empty, after a run of the producers.
handed_out :
    (r : Ring ℕ) (junk k : ℕ)
    → Rep r []
    → Writable r []
    → (consume r.size junk (produce k 0 r).1).0
      ≡ map (λ n. some n) (upto 0 (min k (r.size - 1)))
        ++ replicate (r.size - min k (r.size - 1)) none
handed_out r junk k v w =
    let q = upto 0 (min k (r.size - 1)) in
    let room : min k (r.size - 1 - length {A = ℕ} []) ≡ min k (r.size - 1) = omega arith in
    let v' : Rep (produce k 0 r).1 q =
      subst (λ q. Rep (produce k 0 r).1 q)
        (pushes-min (r.size - 1) k 0 [] (omega arith) ∙ ap (λ j. upto 0 j) room)
        (produce-Rep k 0 v w) in
    let counted : r.size ≡ length q + (r.size - min k (r.size - 1)) =
      omega (arith, length-upto 0 (min k (r.size - 1)), v.room) in
    ap (λ j. (consume j junk (produce k 0 r).1).0) counted
    ∙ consume-Rep (r.size - min k (r.size - 1)) junk q (produce k 0 r).1 v'

abbrev ring_of : List (Option ℕ) → Options → Ring ℕ
ring_of raw o = record {
  slots = raw;
  size = o.size;
  head = 0;
  tail = 0;
  sp = not (ltb 1 o.producers);
  sc = not (ltb 1 o.consumers);
}

made_ring :
    (raw : List (Option ℕ)) (o : Options) → 1 < o.size → new_ring raw o ≡ some (ring_of raw o)
unfolding create
made_ring raw o big = rw (lt→ltb 1 o.size big) refl

-- For options with which the program goes on, a ring of fewer than 2^31 slots, which are NULL or, if
-- there is one producer, hold anything, and numbers of the producers that an `int` can hold: if the
-- producers run one after the other, and then a consumer for as many rounds as the ring has slots, it
-- is handed the numbers from 0 on, in order, as many as the producers have between them but no more
-- than there are slots but one, and then NULL.
pub in_turn :
    (opts : List (ℕ × Text)) (o : Options) (raw : List (Option ℕ)) (junk : ℕ)
    → read_options opts defaults ≡ some o
    → length raw ≡ o.size
    → o.size < 2 ^ 31
    → (o.producers ≡ 1) ⊎ ((i : ℕ) → get_or raw i none ≡ none)
    → o.producers * o.total ≤ 2 ^ 31
    → (r : Ring ℕ) × (ps : List QData) × (new_ring raw o ≡ some r)
      × (assign o.total 0 o.producers ≡ some ps)
      × ((consume o.size junk (produce_all ps r)).0
          ≡ map (λ n. some n) (upto 0 (min (o.producers * o.total) (o.size - 1)))
            ++ replicate (o.size - min (o.producers * o.total) (o.size - 1)) none)
in_turn opts o raw junk read len fits null total =
    let (big, p) = read_options-Sane opts defaults (omega arith, omega arith) read in
    let made = made_ring raw o big in
    let v : Rep (ring_of raw o) [] =
      create-Rep raw o.size (not (ltb 1 o.producers)) (not (ltb 1 o.consumers)) len
        (omega (arith, fits)) made in
    let (ps, gives, runs) =
      assigned o.total 0 o.producers (subst (λ k. k * o.total ≤ 2 ^ 31) (omega arith) total) p in
    (
      ring_of raw o,
      ps,
      made,
      gives,
      ap (λ r. (consume o.size junk r).0) (runs (ring_of raw o) ∙ from_0 (o.producers * o.total))
          ∙ handed_out (ring_of raw o) junk (o.producers * o.total) v (written null),
    )
  where
    from_0 : (k : ℕ) → (produce k (0 * o.total) (ring_of raw o)).1 ≡ (produce k 0 (ring_of raw o)).1
    from_0 k = same_run (ring_of raw o) k k (0 * o.total) 0 refl (omega arith)

    written : (o.producers ≡ 1) ⊎ ((i : ℕ) → get_or raw i none ≡ none) → Writable (ring_of raw o) []
    written (inl one) = inl (ap (λ k. not (ltb 1 k)) one)
    written (inr nulls) = inr (λ k _ _. nulls ((0 + k) % o.size))
