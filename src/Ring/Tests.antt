-- ===== src/Ring/Tests.antt =====
-- The ring of src/ringbuff.h on concrete contents.
use ptf.Prelude.{
  ℕ, ◌<◌, ◌≡◌, ◌≢◌, refl, inl, true, false, none, some, List, [], ◌∷◌, ◌++◌, arith, length,
}
use ptf.Ring.{Ring, next_index, enqueue, dequeue}
use ptf.Ring.Rep.{Rep}
use ptf.Ring.Run.{Op, put, get, accepted, taken, run_ring, run_queue, run_refines}
use ptf.Ring.Spsc.{
  System, Producer, fetched, idle, Reach, start, later, produces, consumes, poll, load_tail, check,
  write_slot, publish, load_head, fetch,
}
use ptf.Ring.Spsc.Safety.{fifo}

-- Four slots; the item 7 is in the last, so that the next one goes round.
abbrev wrapped : Ring ℕ
wrapped = record {
  slots = none ∷ none ∷ none ∷ some 7 ∷ [];
  size = 4;
  head = 3;
  tail = 0;
  sp = true;
  sc = true;
}

abbrev blank : Ring ℕ
blank = record {
  slots = none ∷ none ∷ none ∷ none ∷ [];
  size = 4;
  head = 0;
  tail = 0;
  sp = true;
  sc = true;
}

wrapped-Rep : Rep wrapped (7 ∷ [])
wrapped-Rep = record {
  big = omega arith;
  fits = omega arith;
  stored_len = refl;
  head_in = omega arith;
  tail_in = omega arith;
  room = omega arith;
  tail_at = refl;
  stored = (refl, tt);
}

blank-Rep : Rep blank []
blank-Rep = record {
  big = omega arith;
  fits = omega arith;
  stored_len = refl;
  head_in = omega arith;
  tail_in = omega arith;
  room = omega arith;
  tail_at = refl;
  stored = tt;
}

-- Three items fit, the fourth is refused, and they come out in order.
abbrev calls : List (Op ℕ)
calls = put 8 ∷ put 9 ∷ put 10 ∷ get ∷ get ∷ get ∷ get ∷ []

calls-replies :
    run_ring 99 wrapped calls
    ≡ accepted true
      ∷ accepted true
      ∷ accepted false
      ∷ taken (some 7)
      ∷ taken (some 8)
      ∷ taken (some 9)
      ∷ taken none
      ∷ []
unfolding run_ring enqueue dequeue
calls-replies = refl

run_refines_example : run_ring 99 wrapped calls ≡ run_queue 3 (7 ∷ []) calls
run_refines_example = run_refines 99 calls wrapped-Rep (inl refl)

-- One item published, and the consumer about to read it.
abbrev under_way : System ℕ
under_way = record {
  ring = record blank { slots = some 8 ∷ none ∷ none ∷ none ∷ []; tail = 1 };
  producer = Producer.resting;
  consumer = fetched 0 (some 8);
  sent = 8 ∷ [];
  got = [];
}

moved : next_index 4 0 ≢ 0
moved e = omega arith

published : Reach true blank (record under_way { consumer = idle })
published =
    later
      (later (later (later start (produces (load_tail 8))) (produces (check moved)))
        (produces write_slot))
      (produces publish)

under_way-Reach : Reach true blank under_way
under_way-Reach =
    later (later (later published (consumes (poll (λ e. omega arith)))) (consumes load_head))
      (consumes fetch)

fifo_example : (q : List ℕ) × (under_way.sent ≡ under_way.got ++ q) × (length q < 4)
fifo_example = fifo blank-Rep under_way-Reach
