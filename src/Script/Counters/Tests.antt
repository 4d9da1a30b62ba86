-- ===== src/Script/Counters/Tests.antt =====
-- Two threads in `enter` of src/script.C: both load the counter, and the second loses.
use ptf.Prelude.{refl, ◌+◌, ◌%◌, ◌^◌, ◌≡◌, arith}
use ptf.Prelude.Family.{update, sum_of}
use ptf.Transaction.{Usage}
use ptf.Script.Counters.{
  System, entering, enters, inside, outside, call_enter, load_enter, win_enter, lose_enter, pick,
  Reach, start, later, is_inside,
}
use ptf.Script.Counters.Kept.{counters}

abbrev fresh_usage : Usage
fresh_usage = record { using = 4; used = 9 }

abbrev one_lost : System
one_lost = record {
  usage = record { using = 5; used = 9 };
  users =
      update
        (update
          (update (update (update (update (λ _. outside) 0 enters) 1 enters) 0 (entering 4)) 1
            (entering 4))
          0 inside)
        1 enters;
  exits = 0;
}

one_lost-Reach : Reach 2 fresh_usage one_lost
one_lost-Reach =
    later
      (later
        (later
          (later
            (later (later start (pick 0 (omega arith) call_enter))
              (pick 1 (omega arith) call_enter))
            (pick 0 (omega arith) load_enter))
          (pick 1 (omega arith) load_enter))
        (pick 0 (omega arith) (win_enter refl)))
      (pick 1 (omega arith) (lose_enter (λ e. omega (arith, e))))

counters_example :
    (one_lost.usage.using ≡ (4 + sum_of is_inside 2 one_lost.users) % 2 ^ 64)
    × (one_lost.usage.used ≡ (9 + one_lost.exits) % 2 ^ 64)
counters_example = counters 2 (omega arith) (omega arith) one_lost-Reach
