-- ===== src/Transaction/Lifetime.antt =====
-- The constructor and destructor of `TTransation` in src/transaction.C, and what it keeps for the timeout
-- queue.
use ptf.Prelude.{
  ℕ, zero, suc, ◌-◌, ◌≤◌, ◌≡◌, refl, sym, ap, ◌∙◌, true, false, inl, inr, Bool-cases, Option, none,
  some, List, [], ◌∷◌, ◌++◌, append-nil, append_assoc, arith, length, length-append, take, ltb,
}
use ptf.Prelude.Int.{ℤ}
use ptf.Queue
use ptf.Ring.{Ring, create, drain}
use ptf.Ring.Refine.{create-Rep, drain_refines}
use ptf.Transaction.{Usage, Transaction, new_transaction, push_event, arrive}
use ptf.Transaction.Queues.{ring_queue, list_queue, Alike, arrive-Alike}

-- `times` and `m_node`, a node by address
pub record Timing : Type 0 where
  pub times : ℤ
  pub node : ℕ

-- `setOverTime` and `setTimeoutNode`
abbrev pub set_over_time : ℤ → Timing → Timing
set_over_time overtime t = record t { times = overtime }

abbrev pub set_timeout_node : ℕ → Timing → Timing
set_timeout_node node t = record t { node = node }

module _ {E : Type 0} (junk : ℕ) where
  -- `TTransation::TTransation`: `raw` is the memory that its ring gets. A script is given by what
  -- `enter` returns, and `none` is NULL, which fails an assertion.
  pub make : List (Option E) → Option (Option ℕ) → Usage → Option (Transaction (Ring E))
  make raw none u = none
  make raw (some first) u = elim (create raw 512 true true) [
    | none ↦ none
    | some r ↦ some (new_transaction (ring_queue junk) r first u)
  ]

  -- `~TTransation`; `none` is out of fuel.
  pub delete_transaction : (fuel : ℕ) → Transaction (Ring E) → Option (List E)
  delete_transaction fuel t = drain fuel junk t.queue

take-nil : {E : Type 0} (n : ℕ) → take {A = E} n [] ≡ []
take-nil zero = refl
take-nil (suc n) = refl

-- As many of the events as fit behind the queue
arrive-take :
    {E : Type 0} (cap : ℕ) (es : List E) (t : Transaction (List E))
    → length t.queue ≤ cap
    → (arrive (list_queue cap) es t).queue ≡ t.queue ++ take (cap - length t.queue) es
unfolding arrive push_event list_queue Queue.push
arrive-take cap [] t h =
    sym (ap (λ es. t.queue ++ es) (take-nil (cap - length t.queue)) ∙ append-nil t.queue)
arrive-take cap (e ∷ es) t h = elim (Bool-cases (ltb (length t.queue) cap)) [
  | inl below ↦
      rw (arrive, below)
        (arrive-take cap es (record t { queue = t.queue ++ (e ∷ []) }) (ground (arith, longer))
          ∙ append_assoc t.queue (e ∷ []) (take (cap - length (t.queue ++ (e ∷ []))) es)
          ∙ ap (λ n. t.queue ++ take n (e ∷ es)) (one_more below))
  | inr above ↦
      rw (arrive, above)
        (arrive-take cap es t h
          ∙ ap (λ n. t.queue ++ take n es) (full above)
          ∙ ap (λ n. t.queue ++ take n (e ∷ es)) (sym (full above)))
]
  where
    longer : length (t.queue ++ (e ∷ [])) ≡ suc (length t.queue)
    longer = omega (arith, length-append t.queue (e ∷ []))

    one_more :
        ltb (length t.queue) cap ≡ true
        → suc (cap - length (t.queue ++ (e ∷ []))) ≡ cap - length t.queue
    one_more below = ground (arith, longer)

    full : ltb (length t.queue) cap ≡ false → cap - length t.queue ≡ 0
    full above = ground arith

-- A transaction of a script that is not NULL can be made, and, after any events have been pushed, it can be
-- deleted within 512 rounds, and exactly the first 511 events are deleted with it, in order.
pub made-deleted :
    {E : Type 0} (junk : ℕ) (raw : List (Option E)) (first : Option ℕ) (u : Usage) (es : List E)
    → length raw ≡ 512
    → (t : Transaction (Ring E)) × (make junk raw (some first) u ≡ some t)
      × (delete_transaction junk 512 (arrive (ring_queue junk) es t) ≡ some (take 511 es))
unfolding make delete_transaction new_transaction create
made-deleted junk raw first u es len =
    let r : Ring _ = record { slots = raw; size = 512; head = 0; tail = 0; sp = true; sc = true } in
    let t = new_transaction (ring_queue junk) r first u in
    let alike : Alike 511 t (new_transaction (list_queue 511) [] first u) = record {
      queues = record {
        held = create-Rep raw 512 true true len (omega arith) refl;
        one_producer = refl;
        slots_count = refl;
      };
      is_sends = refl;
      cur_steps = refl;
      usages = refl;
    } in
    let held = (arrive-Alike junk 511 es alike).queues in
    (
      t,
      refl,
      drain_refines 512 junk _ held.held (omega (arith, held.held.room, held.slots_count))
          ∙ ap (λ q. some q)
              (arrive-take 511 es (new_transaction (list_queue 511) [] first u) (omega arith)),
    )
