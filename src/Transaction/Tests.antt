-- ===== src/Transaction/Tests.antt =====
-- A script of two steps: step 0 sends and goes to step 1, which waits for the answer.
use ptf.Prelude.{
  ℕ, zero, suc, ◌≡◌, refl, true, false, Option, none, some, List, [], ◌∷◌, arith, replicate, take,
}
use ptf.Queue
use ptf.Ring.{Ring}
use ptf.Transaction.{
  StepResult, succ, Links, Transaction, looping, returned, on_event, poll, arrive, push_event, body,
  advance,
}
use ptf.Transaction.Queues.{ring_queue, list_queue, Alike, Agree}
use ptf.Transaction.Queues.Refine.{on_event_refines}
use ptf.Transaction.Lifetime.{make, delete_transaction, made-deleted}
use ptf.Transaction.Waiting.{Ended, on_event-Ended, on_event-looping}

abbrev two_steps : ℕ → Links
two_steps i = elim i [
  | zero ↦ record { next = some 1; child = none; parent = none }
  | suc _ ↦ record { next = none; child = none; parent = none }
]

-- The state is the number of runs; a step succeeds.
abbrev count_runs : ℕ → Option ℕ → ℕ → StepResult × ℕ
count_runs i e s = (succ, suc s)

abbrev at_start : Transaction (List ℕ)
at_start = record {
  queue = [];
  is_send = true;
  cur_step = some 0;
  usage = record { using = 1; used = 0 };
}

abbrev on_ring : Transaction (Ring ℕ)
on_ring = record {
  queue = record {
    slots = none ∷ none ∷ none ∷ [];
    size = 3;
    head = 0;
    tail = 0;
    sp = true;
    sc = true;
  };
  is_send = true;
  cur_step = some 0;
  usage = record { using = 1; used = 0 };
}

on_ring-Alike : Alike 2 on_ring at_start
on_ring-Alike = record {
  queues = record {
    held = record {
      big = omega arith;
      fits = omega arith;
      stored_len = refl;
      head_in = omega arith;
      tail_in = omega arith;
      room = omega arith;
      tail_at = refl;
      stored = tt;
    };
    one_producer = refl;
    slots_count = refl;
  };
  is_sends = refl;
  cur_steps = refl;
  usages = refl;
}

-- Nothing has come in at the second poll, and the answer 7 at the third.
abbrev rounds : List (List ℕ)
rounds = [] ∷ [] ∷ (7 ∷ []) ∷ []

on_event-two_steps :
    on_event (list_queue 2) two_steps count_runs rounds at_start 0
    ≡ returned succ (record at_start { cur_step = none; usage = record { using = 0; used = 1 } }) 2
unfolding on_event poll arrive push_event body advance list_queue Queue.push Queue.pop
on_event-two_steps = refl

on_event_refines_example :
    Agree 2
      (on_event (ring_queue 99) two_steps count_runs rounds on_ring 0)
      (on_event (list_queue 2) two_steps count_runs rounds at_start 0)
on_event_refines_example = on_event_refines 99 2 two_steps count_runs rounds 0 on_ring-Alike

on_event-Ended_example :
    Ended
      (list_queue 2)
      two_steps
      count_runs
      at_start.usage
      (on_event (list_queue 2) two_steps count_runs rounds at_start 0)
on_event-Ended_example = on_event-Ended (list_queue 2) two_steps count_runs rounds 0 at_start 0 refl

on_event-looping_example :
    on_event
      (ring_queue 99)
      two_steps
      count_runs
      (replicate 5 [])
      (record on_ring { is_send = false })
      0
    ≡ looping
on_event-looping_example =
    on_event-looping 99 two_steps count_runs 5 (record on_ring { is_send = false }) 0 refl
      on_ring-Alike.queues.held

made-deleted_example :
    (t : Transaction (Ring ℕ)) × (make 99 (replicate 512 none) (some (some 0)) at_start.usage
      ≡ some t)
    × (delete_transaction 99 512 (arrive (ring_queue 99) (7 ∷ 8 ∷ []) t)
        ≡ some (take 511 (7 ∷ 8 ∷ [])))
made-deleted_example =
    made-deleted 99 (replicate 512 none) (some 0) at_start.usage (7 ∷ 8 ∷ []) refl
