-- ===== src/Transaction/Queues.antt =====
-- The queue of a transaction of src/transaction.C, as a ring and as a plain queue, and what it means that
-- two transactions differ only in it.
pub mod Refine
use ptf.Prelude.{
  ℕ, suc, ◌-◌, ◌≡◌, refl, subst, ap, ◌∙◌, true, not, ◌&&◌, Option, none, some, List, [], ◌∷◌, arith,
  length, lt→ltb, is_some, Bool-cases, inr, inl,
}
use ptf.Queue
use ptf.Ring.{Ring, enqueue, dequeue, count}
use ptf.Ring.Rep.{Rep}
use ptf.Ring.Refine.{enqueue_refines, dequeue_refines, count-length}
use ptf.Ring.Run.{size-enqueue, size-dequeue, sp-enqueue, sp-dequeue}
use ptf.Transaction.{
  StepResult, errend, succ, subreturn, nextevent, Links, next_step, exit_script, QueueOps,
  Transaction, Outcome, looping, crashed, returned, push_event, arrive, poll, advance, body,
  on_event,
}

-- `m_pMsgQueue`
unfoldable pub ring_queue : {E : Type 0} → ℕ → QueueOps E (Ring E)
ring_queue junk = record { push = enqueue; size = count; pop = dequeue junk }

-- The bounded queue with room for `cap` events.
unfoldable pub list_queue : {E : Type 0} → ℕ → QueueOps E (List E)
list_queue cap = record {
  push = λ q e. Queue.push cap q e;
  size = λ q. length q;
  pop = λ q. Queue.pop q;
}

module _ {E : Type 0} where
  -- The ring holds the queue; it has one producer and room for `cap`.
  pub record Holds (cap : ℕ) (r : Ring E) (q : List E) : Type 0 where
    pub held : Rep r q
    pub one_producer : r.sp ≡ true
    pub slots_count : r.size - 1 ≡ cap

  -- Two transactions that differ in how their queue is kept.
  pub record Alike (cap : ℕ) (t : Transaction (Ring E)) (u : Transaction (List E)) : Type 0 where
    pub queues : Holds cap t.queue u.queue
    pub is_sends : t.is_send ≡ u.is_send
    pub cur_steps : t.cur_step ≡ u.cur_step
    pub usages : t.usage ≡ u.usage

  abbrev pub Agree : {S : Type 0} → ℕ → Outcome (Ring E) S → Outcome (List E) S → Type 0
  Agree cap looping looping = Unit
  Agree cap crashed crashed = Unit
  Agree cap (returned r t s) (returned r' u s') = (r ≡ r') × (s ≡ s') × Alike cap t u
  Agree cap _ _ = ⊥

  module _ (junk cap : ℕ) where
    push_event-Alike :
        (e : E) {t : Transaction (Ring E)} {u : Transaction (List E)}
        → Alike cap t u
        → Alike cap
            (push_event (ring_queue junk) (some e) t).1
            (push_event (list_queue cap) (some e) u).1
    unfolding push_event ring_queue list_queue
    push_event-Alike e {t} {u} v =
        let (_, held) = enqueue_refines e v.queues.held (inl v.queues.one_producer) in
        record {
          queues = record {
            held =
                subst (λ k. Rep (enqueue t.queue e).1 (Queue.push k u.queue e).1)
                  v.queues.slots_count held;
            one_producer = sp-enqueue t.queue e ∙ v.queues.one_producer;
            slots_count = ap (λ n. n - 1) (size-enqueue t.queue e) ∙ v.queues.slots_count;
          };
          is_sends = v.is_sends;
          cur_steps = v.cur_steps;
          usages = v.usages;
        }

    pub arrive-Alike :
        (es : List E) {t : Transaction (Ring E)} {u : Transaction (List E)}
        → Alike cap t u
        → Alike cap (arrive (ring_queue junk) es t) (arrive (list_queue cap) es u)
    unfolding arrive
    arrive-Alike [] v = v
    arrive-Alike (e ∷ es) v = arrive-Alike es (push_event-Alike e v)

    pub poll-Holds :
        {r : Ring E} (q : List E)
        → Holds cap r q
        → ((poll (ring_queue junk) r).0 ≡ (poll (list_queue cap) q).0)
          × Holds cap (poll (ring_queue junk) r).1 (poll (list_queue cap) q).1
    unfolding poll ring_queue list_queue Queue.pop
    poll-Holds {r} [] v = rw (count-length [] v.held) (refl, v)
    poll-Holds {r} (e ∷ q) v =
        let (out, held) = dequeue_refines junk (e ∷ q) v.held in
        rw (count-length (e ∷ q) v.held, lt→ltb 0 (suc (length q)) (omega arith))
          (
            out,
            record {
              held = held;
              one_producer = sp-dequeue junk r ∙ v.one_producer;
              slots_count = ap (λ n. n - 1) (size-dequeue junk r) ∙ v.slots_count;
            },
          )
