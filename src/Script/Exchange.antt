-- ===== src/Script/Exchange.antt =====
-- A script of two steps, as src/script.C links them, through `onEvent` of src/transaction.C: a message is
-- sent, and an answer is waited for.
use ptf.Prelude.{
  ℕ, zero, suc, ◌<◌, ◌≡◌, ◌⊎◌, inl, inr, true, false, Option, none, some, List, [], ◌∷◌, lt→ltb,
}
use ptf.Queue
use ptf.Transaction.{
  StepResult, errend, succ, exit_script, Usage, Transaction, returned, push_event, arrive, poll,
  body, advance, on_event,
}
use ptf.Transaction.Queues.{list_queue}
use ptf.Script.{links_of}

-- `n` rounds in which nothing comes in, and then an event.
abbrev pub answered_after : {E : Type 0} → ℕ → E → List (List E)
answered_after zero e = (e ∷ []) ∷ []
answered_after (suc n) e = [] ∷ answered_after n e

-- A transaction before its first step, and one that has sent and waits at its second.
abbrev pub starting : {E : Type 0} → Usage → Transaction (List E)
starting u = record { queue = []; is_send = true; cur_step = some 0; usage = u }

abbrev waiting : {E : Type 0} → Usage → Transaction (List E)
waiting u = record { queue = []; is_send = false; cur_step = some 1; usage = u }

-- One that has had its answer and has left the script.
abbrev pub done : {E : Type 0} → Usage → Transaction (List E)
done u = record { queue = []; is_send = true; cur_step = none; usage = exit_script u }

module _ {E S : Type 0} (cap : ℕ) (run : ℕ → Option E → S → StepResult × S) where
  wait-answered :
      (n : ℕ) (e : E) (u : Usage) (s s' : S) (r : StepResult)
      → 0 < cap
      → run 1 (some e) s ≡ (r, s')
      → (r ≡ succ) ⊎ (r ≡ errend)
      → on_event (list_queue cap) (links_of 2) run (answered_after n e) (waiting u) s
        ≡ returned r (done u) s'
  unfolding on_event arrive poll push_event body advance list_queue Queue.push Queue.pop links_of
  wait-answered zero e u s s' r room answer (inl ends) = rw (lt→ltb 0 cap room, answer, ends)
  wait-answered zero e u s s' r room answer (inr ends) = rw (lt→ltb 0 cap room, answer, ends)
  wait-answered (suc n) e u s s' r room answer ends = wait-answered n e u s s' r room answer ends

  -- If the first step sends and the second one, given the answer, succeeds or fails, then `onEvent` sends,
  -- waits for the answer however many rounds it takes, and returns the second step's result; the transaction
  -- has left the script.
  pub on_event-exchange :
      (n : ℕ) (e : E) (u : Usage) (s s' s'' : S) (r : StepResult)
      → 0 < cap
      → run 0 none s ≡ (succ, s')
      → run 1 (some e) s' ≡ (r, s'')
      → (r ≡ succ) ⊎ (r ≡ errend)
      → on_event (list_queue cap) (links_of 2) run ([] ∷ answered_after n e) (starting u) s
        ≡ returned r (done u) s''
  unfolding on_event arrive poll push_event body advance list_queue Queue.push Queue.pop links_of
  on_event-exchange n e u s s' s'' r room sent answer ends =
      rw sent (wait-answered n e u s' s'' r room answer ends)
