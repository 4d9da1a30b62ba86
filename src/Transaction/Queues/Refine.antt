-- ===== src/Transaction/Queues/Refine.antt =====
-- The rounds of `onEvent` of src/transaction.C, on the ring and on the plain queue.
use ptf.Prelude.{
  ℕ, refl, ap, not, ◌&&◌, Option, none, some, List, [], ◌∷◌, is_some, Bool-cases, inr, inl,
}
use ptf.Ring.{Ring}
use ptf.Transaction.{
  StepResult, errend, succ, subreturn, nextevent, Links, next_step, exit_script, Transaction,
  Outcome, crashed, returned, arrive, poll, advance, body, on_event,
}
use ptf.Transaction.Queues.{ring_queue, list_queue, Alike, Agree, arrive-Alike, poll-Holds}

module _ {E : Type 0} (junk cap : ℕ) where
  module _ {S : Type 0} (links : ℕ → Links) (run : ℕ → Option E → S → StepResult × S) where
    -- Two ways to go on that agree from then on.
    abbrev Follows :
        (Transaction (Ring E) → S → Outcome (Ring E) S)
        → (Transaction (List E) → S → Outcome (List E) S)
        → Type 0
    Follows f g =
        (t : Transaction (Ring E)) (u : Transaction (List E)) (s : S)
        → Alike cap t u
        → Agree cap (f t s) (g u s)

    -- On to the step `o`, or out where there is none.
    go_on :
        (f : Transaction (Ring E) → S → Outcome (Ring E) S)
        (g : Transaction (List E) → S → Outcome (List E) S) (o : Option ℕ) (ret : StepResult)
        (s : S) {t : Transaction (Ring E)} {u : Transaction (List E)}
        → Follows f g
        → Alike cap t u
        → Agree cap
            (elim o [
              | none ↦ returned ret (record t { cur_step = none; usage = exit_script t.usage }) s
              | some j ↦ f (record t { cur_step = some j }) s
            ])
            (elim o [
              | none ↦ returned ret (record u { cur_step = none; usage = exit_script u.usage }) s
              | some j ↦ g (record u { cur_step = some j }) s
            ])
    go_on f g none ret s h v = (
      refl,
      refl,
      record {
        queues = v.queues;
        is_sends = v.is_sends;
        cur_steps = refl;
        usages = ap exit_script v.usages;
      },
    )
    go_on f g (some j) ret s h v =
        h _ _ s
          (record { queues = v.queues; is_sends = v.is_sends; cur_steps = refl; usages = v.usages })

    advance-Agree :
        (f : Transaction (Ring E) → S → Outcome (Ring E) S)
        (g : Transaction (List E) → S → Outcome (List E) S) (i : ℕ) (ret : StepResult) (s : S)
        {t : Transaction (Ring E)} {u : Transaction (List E)}
        → Follows f g
        → Alike cap t u
        → Agree cap
            (advance (ring_queue junk) links run f i ret t s)
            (advance (list_queue cap) links run g i ret u s)
    unfolding advance
    advance-Agree f g i nextevent s h v = (
      refl,
      refl,
      record { queues = v.queues; is_sends = v.is_sends; cur_steps = refl; usages = v.usages },
    )
    advance-Agree f g i errend s h v = go_on f g none errend s h v
    advance-Agree f g i succ s h v = go_on f g (next_step (links i)) succ s h v
    advance-Agree f g i subreturn s h v = go_on f g (links i).parent subreturn s h v

    run_step :
        (f : Transaction (Ring E) → S → Outcome (Ring E) S)
        (g : Transaction (List E) → S → Outcome (List E) S) (o : Option ℕ) (e : Option E) (s : S)
        {t : Transaction (Ring E)} {u : Transaction (List E)}
        → Follows f g
        → Alike cap t u
        → Agree cap
            (elim o [
              | none ↦ crashed
              | some i ↦
                  (let (ret, s') = run i e s in
                    advance
                      (ring_queue junk)
                      links
                      run
                      f
                      i
                      ret
                      (record t { is_send = is_some e })
                      s')
            ])
            (elim o [
              | none ↦ crashed
              | some i ↦
                  (let (ret, s') = run i e s in
                    advance
                      (list_queue cap)
                      links
                      run
                      g
                      i
                      ret
                      (record u { is_send = is_some e })
                      s')
            ])
    run_step f g none e s h v = tt
    run_step f g (some i) e s h v =
        advance-Agree f g i (run i e s).0 (run i e s).1 h (record {
          queues = v.queues;
          is_sends = refl;
          cur_steps = v.cur_steps;
          usages = v.usages;
        })

    body-Agree :
        (f : Transaction (Ring E) → S → Outcome (Ring E) S)
        (g : Transaction (List E) → S → Outcome (List E) S) (e : Option E) (s : S)
        {t : Transaction (Ring E)} {u : Transaction (List E)}
        → Follows f g
        → Alike cap t u
        → Agree cap
            (body (ring_queue junk) links run f e t s)
            (body (list_queue cap) links run g e u s)
    unfolding body
    body-Agree f g e s {t} {u} h v = elim (Bool-cases (not (is_some e) && not u.is_send)) [
      | inl waits ↦
          rw (v.is_sends, waits)
            (h _ u s (record {
              queues = v.queues;
              is_sends = refl;
              cur_steps = v.cur_steps;
              usages = v.usages;
            }))
      | inr goes ↦ rw (v.is_sends, goes, v.cur_steps) (run_step f g u.cur_step e s h v)
    ]

    -- For transactions that differ only in how their queue is kept, `onEvent` on the ring goes as
    -- `onEvent` on the bounded queue does: to the same end, with the same result, step, counters and state
    -- of the steps, whatever events arrive between its polls.
    pub on_event_refines :
        (rounds : List (List E)) {t : Transaction (Ring E)} {u : Transaction (List E)} (s : S)
        → Alike cap t u
        → Agree cap
            (on_event (ring_queue junk) links run rounds t s)
            (on_event (list_queue cap) links run rounds u s)
    unfolding on_event
    on_event_refines [] s v = tt
    on_event_refines (arrived ∷ rounds) {t} {u} s v =
        let v' = arrive-Alike junk cap arrived v in
        let (same, queues) =
          poll-Holds junk cap (arrive (list_queue cap) arrived u).queue v'.queues in
        rw same (
          body-Agree (on_event (ring_queue junk) links run rounds)
            (on_event (list_queue cap) links run rounds)
            (poll (list_queue cap) (arrive (list_queue cap) arrived u).queue).0 s
            (λ t u s w. on_event_refines rounds s w)
            (record {
              queues = queues;
              is_sends = v'.is_sends;
              cur_steps = v'.cur_steps;
              usages = v'.usages;
            }))
