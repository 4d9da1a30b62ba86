-- ===== src/Script/Dialogue.antt =====
-- A script of any number of exchanges, as src/script.C links its steps, through `onEvent` of
-- src/transaction.C: each time a message is sent, and an answer is waited for.
use ptf.Prelude.{
  ℕ, zero, suc, ◌+◌, ◌<◌, ◌≡◌, refl, ◌∙◌, ◌⊎◌, inl, inr, true, false, Option, none, some, List, [],
  ◌∷◌, ◌++◌, arith, ltb, lt→ltb,
}
use ptf.Queue
use ptf.Transaction.{
  StepResult, errend, succ, exit_script, Usage, Transaction, Outcome, returned, push_event, arrive,
  poll, body, advance, on_event,
}
use ptf.Transaction.Queues.{list_queue}
use ptf.Script.{links_of}
use ptf.Script.Exchange.{answered_after, done}

-- A transaction that is about to send at the step `i`, and one that waits there.
abbrev pub sending_at : {E : Type 0} → ℕ → Usage → Transaction (List E)
sending_at i u = record { queue = []; is_send = true; cur_step = some i; usage = u }

abbrev pub waiting_at : {E : Type 0} → ℕ → Usage → Transaction (List E)
waiting_at i u = record { queue = []; is_send = false; cur_step = some i; usage = u }

module _ {E S : Type 0} (cap : ℕ) (run : ℕ → Option E → S → StepResult × S) (n : ℕ) where
  -- From the step `i` and the state `s` on, exchange after exchange succeeds, each answered after any number
  -- of idle rounds, until one fails or the last of the `n` steps has succeeded.
  pub data Dialogue : ℕ → S → List (List E) → StepResult → S → Type 0 where
    ends :
        {i : ℕ} {s s' s'' : S} {r : StepResult} (delay : ℕ) (e : E) (rest : List (List E))
        → i + 1 < n
        → run i none s ≡ (succ, s')
        → run (i + 1) (some e) s' ≡ (r, s'')
        → (r ≡ errend) ⊎ ((r ≡ succ) × (i + 1 + 1 ≡ n))
        → Dialogue i s ([] ∷ (answered_after delay e ++ rest)) r s''
    goes_on :
        {i : ℕ} {s s' s'' t : S} {r : StepResult} (delay : ℕ) (e : E) (rest : List (List E))
        → i + 1 + 1 < n
        → run i none s ≡ (succ, s')
        → run (i + 1) (some e) s' ≡ (succ, s'')
        → Dialogue (i + 1 + 1) s'' rest r t
        → Dialogue i s ([] ∷ (answered_after delay e ++ rest)) r t

  -- A step that succeeds goes on to the next one, or out of the script from the last.
  advance-onward :
      (again : Transaction (List E) → S → Outcome (List E) S) (i : ℕ) (t : Transaction (List E))
      (s : S)
      → i + 1 < n
      → advance (list_queue cap) (links_of n) run again i succ t s
        ≡ again (record t { cur_step = some (i + 1) }) s
  unfolding advance links_of
  advance-onward again i t s room = rw (advance, lt→ltb (i + 1) n room) refl

  advance-out :
      (again : Transaction (List E) → S → Outcome (List E) S) (i : ℕ) (t : Transaction (List E))
      (s : S)
      → i + 1 ≡ n
      → advance (list_queue cap) (links_of n) run again i succ t s
        ≡ returned succ (record t { cur_step = none; usage = exit_script t.usage }) s
  unfolding advance links_of
  advance-out again i t s last = rw (advance, at_end) (rw (links_of, at_end) refl)
    where
      at_end : ltb (i + 1) n ≡ false
      at_end = ground (arith, last)

  sends :
      (i : ℕ) (u : Usage) {s s' : S} (rest : List (List E))
      → i + 1 < n
      → run i none s ≡ (succ, s')
      → on_event (list_queue cap) (links_of n) run ([] ∷ rest) (sending_at i u) s
        ≡ on_event (list_queue cap) (links_of n) run rest (waiting_at (i + 1) u) s'
  unfolding on_event arrive poll push_event body advance list_queue Queue.push Queue.pop links_of
  sends i u {s'} rest room sent = rw sent (
      advance-onward (on_event (list_queue cap) (links_of n) run rest) i
        (record (sending_at i u) { is_send = false }) s' room)

  hears :
      (i delay : ℕ) (e : E) (u : Usage) {s s' : S} (rest : List (List E))
      → 0 < cap
      → i + 1 < n
      → run i (some e) s ≡ (succ, s')
      → on_event
          (list_queue cap)
          (links_of n)
          run
          (answered_after delay e ++ rest)
          (waiting_at i u)
          s
        ≡ on_event (list_queue cap) (links_of n) run rest (sending_at (i + 1) u) s'
  unfolding on_event arrive poll push_event body advance list_queue Queue.push Queue.pop links_of
  hears i zero e u {s'} rest big room heard =
      rw (lt→ltb 0 cap big, heard)
        (advance-onward (on_event (list_queue cap) (links_of n) run rest) i
          (record (waiting_at i u) { is_send = true }) s' room)
  hears i (suc k) e u rest big room heard = hears i k e u rest big room heard

  leaves :
      (i delay : ℕ) (e : E) (u : Usage) {s s' : S} {r : StepResult} (rest : List (List E))
      → 0 < cap
      → run i (some e) s ≡ (r, s')
      → (r ≡ errend) ⊎ ((r ≡ succ) × (i + 1 ≡ n))
      → on_event
          (list_queue cap)
          (links_of n)
          run
          (answered_after delay e ++ rest)
          (waiting_at i u)
          s
        ≡ returned r (done u) s'
  unfolding on_event arrive poll push_event body advance list_queue Queue.push Queue.pop links_of
  leaves i zero e u rest big heard (inl fails) = rw (lt→ltb 0 cap big, heard, fails) refl
  leaves i zero e u {s'} rest big heard (inr (succeeds, last)) =
      rw (lt→ltb 0 cap big, heard, succeeds)
        (advance-out (on_event (list_queue cap) (links_of n) run rest) i
          (record (waiting_at i u) { is_send = true }) s' last)
  leaves i (suc k) e u rest big heard over = leaves i k e u rest big heard over

  -- `onEvent` goes through the whole dialogue, however late the answers are, and returns its result; the
  -- transaction has left the script.
  pub on_event-Dialogue :
      (u : Usage) {i : ℕ} {s t : S} {r : StepResult} {rounds : List (List E)}
      → 0 < cap
      → Dialogue i s rounds r t
      → on_event (list_queue cap) (links_of n) run rounds (sending_at i u) s ≡ returned r (done u) t
  on_event-Dialogue u {i} big (ends delay e rest room sent heard over) =
      sends i u (answered_after delay e ++ rest) room sent
      ∙ leaves (i + 1) delay e u rest big heard over
  on_event-Dialogue u {i} big (goes_on delay e rest room sent heard d) =
      sends i u (answered_after delay e ++ rest) (omega arith) sent
      ∙ hears (i + 1) delay e u rest big room heard
      ∙ on_event-Dialogue u big d
