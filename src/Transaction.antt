-- ===== src/Transaction.antt =====
-- src/transaction.h, src/transaction.C: a transaction goes through the steps of its script, driven by
-- the events in its queue. `enter` and `exit` of src/script.C and the links of src/step.C are here
-- too. A step is named by a number; `none` is a NULL pointer to a step.
pub mod Queues
pub mod Waiting
pub mod Lifetime
mod Tests
use ptf.Prelude.{
  ℕ, ◌+◌, ◌-◌, ◌%◌, ◌^◌, Bool, true, false, not, ◌&&◌, Option, none, some, List, [], ◌∷◌, ltb,
  is_some, if◌then◌else◌,
}

-- `TStepResult`
pub data StepResult : Type 0 where
  errend succ subreturn nextevent : StepResult

-- `m_next`, `m_child` and `m_parent` of a step
pub record Links : Type 0 where
  pub next : Option ℕ
  pub child : Option ℕ
  pub parent : Option ℕ

-- `TStep::next`
abbrev pub next_step : Links → Option ℕ
next_step l = elim l.child [ some c ↦ some c | none ↦ l.next ]

-- `m_nUsing` and `m_nUsed` of a script, 64 bits wide
pub record Usage : Type 0 where
  pub using : ℕ
  pub used : ℕ

-- `TScript::enter`, but for the step that it returns
abbrev pub enter_script : Usage → Usage
enter_script u = record u { using = (u.using + 1) % 2 ^ 64 }

-- `TScript::exit`
abbrev pub exit_script : Usage → Usage
exit_script u = record { using = (u.using + 2 ^ 64 - 1) % 2 ^ 64; used = (u.used + 1) % 2 ^ 64 }

-- What a transaction asks of its queue of events.
pub record QueueOps (E Q : Type 0) : Type 0 where
  pub push : Q → E → Bool × Q
  pub size : Q → ℕ
  pub pop : Q → Option E × Q

-- `TTransation`, with the counters of its script
pub record Transaction (Q : Type 0) : Type 0 where
  pub queue : Q
  pub is_send : Bool
  pub cur_step : Option ℕ
  pub usage : Usage

-- What a call of `onEvent` comes to: it is still in its loop, it calls `run` of NULL, or it returns.
-- `S` is the state that the steps act on.
pub data Outcome (Q S : Type 0) : Type 0 where
  looping : Outcome Q S
  crashed : Outcome Q S
  returned : StepResult → Transaction Q → S → Outcome Q S

module _ {E Q : Type 0} (ops : QueueOps E Q) where
  -- `TTransation::TTransation`, on a script whose first step is `first`
  unfoldable pub new_transaction : Q → Option ℕ → Usage → Transaction Q
  new_transaction queue first u = record {
    queue = queue;
    is_send = true;
    cur_step = first;
    usage = enter_script u;
  }

  -- `pushEvent`; `none` is NULL.
  unfoldable pub push_event : Option E → Transaction Q → Bool × Transaction Q
  push_event none t = (false, t)
  push_event (some e) t = let (done, q) = ops.push t.queue e in (done, record t { queue = q })

  -- The events that others push, one after the other.
  unfoldable pub arrive : List E → Transaction Q → Transaction Q
  arrive [] t = t
  arrive (e ∷ es) t = arrive es (push_event (some e) t).1

  -- The head of the loop: `dequeue` is called only if `size` says that it will find something.
  unfoldable pub poll : Q → Option E × Q
  poll q = if ltb 0 (ops.size q) then ops.pop q else (none, q)

  module _ {S : Type 0} (links : ℕ → Links) (run : ℕ → Option E → S → StepResult × S) where
    -- From the `switch` to the end of the loop's body, for the step `i` that gave `ret`. `again` is
    -- the rest of the loop.
    unfoldable pub advance :
        (Transaction Q → S → Outcome Q S) → ℕ → StepResult → Transaction Q → S → Outcome Q S
    advance again i nextevent t s =
        returned nextevent (record t { cur_step = next_step (links i) }) s
    advance again i errend t s =
        returned errend (record t { cur_step = none; usage = exit_script t.usage }) s
    advance again i succ t s = elim (next_step (links i)) [
      | none ↦ returned succ (record t { cur_step = none; usage = exit_script t.usage }) s
      | some j ↦ again (record t { cur_step = some j }) s
    ]
    advance again i subreturn t s = elim (links i).parent [
      | none ↦ returned subreturn (record t { cur_step = none; usage = exit_script t.usage }) s
      | some j ↦ again (record t { cur_step = some j }) s
    ]

    -- The body of the loop, for the event `e` that it polled.
    unfoldable pub body :
        (Transaction Q → S → Outcome Q S) → Option E → Transaction Q → S → Outcome Q S
    body again e t s = if not (is_some e) && not t.is_send then again t s else elim t.cur_step [
      | none ↦ crashed
      | some i ↦
          (let (ret, s') = run i e s in advance again i ret (record t { is_send = is_some e }) s')
    ]

    -- `onEvent`. Each round of the loop starts with the events that others push before its poll; when
    -- no rounds are left it is still looping.
    unfoldable pub on_event : List (List E) → Transaction Q → S → Outcome Q S
    on_event [] t s = looping
    on_event (arrived ∷ rounds) t s =
        let t' = arrive arrived t in
        let (e, q) = poll t'.queue in body (on_event rounds) e (record t' { queue = q }) s
