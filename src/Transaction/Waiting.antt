-- ===== src/Transaction/Waiting.antt =====
-- How `onEvent` of src/transaction.C ends, and when it does not.
use ptf.Prelude.{
  ℕ, zero, suc, ◌≡◌, refl, subst, ◌∙◌, ◌≢◌, ◌⊎◌, inl, inr, false, not, ◌&&◌, Option, none, some,
  List, [], ◌∷◌, replicate, is_some, Bool-cases,
}
use ptf.Ring.{Ring}
use ptf.Ring.Rep.{Rep}
use ptf.Ring.Refine.{count-length}
use ptf.Transaction.{
  StepResult, errend, succ, subreturn, nextevent, Links, next_step, Usage, exit_script, QueueOps,
  Transaction, Outcome, looping, crashed, returned, push_event, arrive, poll, advance, body,
  on_event,
}
use ptf.Transaction.Queues.{ring_queue}

module _ {E Q S : Type 0} (ops : QueueOps E Q) (links : ℕ → Links)
    (run : ℕ → Option E → S → StepResult × S) where
  arrive-usage : (es : List E) (t : Transaction Q) → (arrive ops es t).usage ≡ t.usage
  unfolding arrive push_event
  arrive-usage [] t = refl
  arrive-usage (e ∷ es) t = arrive-usage es (push_event ops (some e) t).1

  arrive-cur_step : (es : List E) (t : Transaction Q) → (arrive ops es t).cur_step ≡ t.cur_step
  unfolding arrive push_event
  arrive-cur_step [] t = refl
  arrive-cur_step (e ∷ es) t = arrive-cur_step es (push_event ops (some e) t).1

  -- If a call returned, either it waits for the next event and the script counts the transaction as
  -- before, or it has no step left and has left the script once.
  abbrev pub Ended : Usage → Outcome Q S → Type 0
  Ended u looping = Unit
  Ended u crashed = ⊥
  Ended u (returned ret t s) =
      ((ret ≡ nextevent) × (t.usage ≡ u))
      ⊎ ((ret ≢ nextevent) × (t.cur_step ≡ none) × (t.usage ≡ exit_script u))

  -- What goes on from a step ends so.
  abbrev EndsWell : (Transaction Q → S → Outcome Q S) → Type 0
  EndsWell f = (i : ℕ) (t : Transaction Q) (s : S) → t.cur_step ≡ some i → Ended t.usage (f t s)

  next-Ended :
      (f : Transaction Q → S → Outcome Q S) (o : Option ℕ) (ret : StepResult) (t : Transaction Q)
      (s : S)
      → EndsWell f
      → ret ≢ nextevent
      → Ended t.usage (elim o [
        | none ↦ returned ret (record t { cur_step = none; usage = exit_script t.usage }) s
        | some j ↦ f (record t { cur_step = some j }) s
      ])
  next-Ended f none ret t s h ne = inr (ne, refl, refl)
  next-Ended f (some j) ret t s h ne = h j (record t { cur_step = some j }) s refl

  advance-Ended :
      (f : Transaction Q → S → Outcome Q S) (i : ℕ) (ret : StepResult) (t : Transaction Q) (s : S)
      → EndsWell f
      → Ended t.usage (advance ops links run f i ret t s)
  unfolding advance
  advance-Ended f i nextevent t s h = inl (refl, refl)
  advance-Ended f i errend t s h = next-Ended f none errend t s h (λ e. cc)
  advance-Ended f i succ t s h = next-Ended f (next_step (links i)) succ t s h (λ e. cc)
  advance-Ended f i subreturn t s h = next-Ended f (links i).parent subreturn t s h (λ e. cc)

  body-Ended :
      (f : Transaction Q → S → Outcome Q S) (e : Option E) (i : ℕ) (t : Transaction Q) (s : S)
      → EndsWell f
      → t.cur_step ≡ some i
      → Ended t.usage (body ops links run f e t s)
  unfolding body
  body-Ended f e i t s h at = elim (Bool-cases (not (is_some e) && not t.is_send)) [
    | inl waits ↦ rw waits (h i t s at)
    | inr goes ↦
        rw (goes, at)
          (advance-Ended f i (run i e s).0 (record t { is_send = is_some e }) (run i e s).1 h)
  ]

  -- `onEvent` on a transaction that stands at a step: it does not call `run` of NULL, and where it
  -- returns, either the result is NEXTEVENT and the counters of the script are as before, also where
  -- no step follows, or no step is left and the script has been left exactly once.
  pub on_event-Ended :
      (rounds : List (List E)) (i : ℕ) (t : Transaction Q) (s : S)
      → t.cur_step ≡ some i
      → Ended t.usage (on_event ops links run rounds t s)
  unfolding on_event
  on_event-Ended [] i t s at = tt
  on_event-Ended (arrived ∷ rounds) i t s at =
      let t' : Transaction Q = arrive ops arrived t in
      subst (λ u. Ended u (on_event ops links run (arrived ∷ rounds) t s)) (arrive-usage arrived t)
        (body-Ended (on_event ops links run rounds) (poll ops t'.queue).0 i
          (record t' { queue = (poll ops t'.queue).1 }) s
          (λ j u s' at'. on_event-Ended rounds j u s' at') (arrive-cur_step arrived t ∙ at))

module _ {E S : Type 0} (junk : ℕ) (links : ℕ → Links)
    (run : ℕ → Option E → S → StepResult × S) where
  pub poll-empty : {r : Ring E} → Rep r [] → poll (ring_queue junk) r ≡ (none, r)
  unfolding poll ring_queue
  poll-empty v = rw (count-length [] v)

  -- A transaction that has sent, and whose queue is empty, stays in `onEvent` until an event is pushed:
  -- however many rounds go by, it runs no step and does not return.
  pub on_event-looping :
      (n : ℕ) (t : Transaction (Ring E)) (s : S)
      → t.is_send ≡ false
      → Rep t.queue []
      → on_event (ring_queue junk) links run (replicate n []) t s ≡ looping
  unfolding on_event arrive body
  on_event-looping zero t s sent v = refl
  on_event-looping (suc n) t s sent v =
      rw (poll-empty v, sent) (on_event-looping n (record t { is_send = false }) s refl v)
