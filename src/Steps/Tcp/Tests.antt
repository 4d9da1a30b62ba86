-- ===== src/Steps/Tcp/Tests.antt =====
-- A script of src/tcpstep.C with two messages and two answers, of which the second is too long.
use ptf.Prelude.{ℕ, ◌≡◌, ◌≢◌, refl, true, false, none, some, [], ◌∷◌, arith, ◌==◌, if◌then◌else◌}
use ptf.Prelude.Int.{pos}
use ptf.Text.{codes}
use ptf.Transaction.{Usage, returned, on_event}
use ptf.Transaction.Queues.{list_queue}
use ptf.Pool.Task.{find}
use ptf.Script.{links_of}
use ptf.Script.Exchange.{done}
use ptf.Script.Dialogue.{sending_at}
use ptf.Steps.Tcp.{TcpStep, World}
use ptf.Steps.Tcp.RoundTrip.{TcpSpec}
use ptf.Steps.Tcp.Exchange.{sender, receiver}
use ptf.Steps.Tcp.Dialogue.{Talk, run_steps, rounds_of, steps_count, Talked, course}
use ptf.Steps.Tcp.Dialogue.Judged.{on_event-talks}

abbrev login : TcpSpec
login = record { sends = true; wait = 1; ip = codes "10.0.0.1"; port = 80; content = codes "in" }

abbrev logout : TcpSpec
logout = record { sends = true; wait = 1; ip = codes "10.0.0.1"; port = 80; content = codes "out" }

abbrev okay : TcpSpec
okay = record { sends = false; wait = 5; ip = codes "10.0.0.1"; port = 80; content = codes "ok" }

abbrev first_talk : Talk
first_talk = record { out = login; back = okay; delay = 3; heard = pos 2; fresh = 90 }

abbrev second_talk : Talk
second_talk = record { out = logout; back = okay; delay = 0; heard = pos 5; fresh = 91 }

abbrev four_steps : ℕ → TcpStep
four_steps i = if i == 0 then sender login else if i == 2 then sender logout else receiver okay

abbrev nodes : ℕ → ℕ
nodes i = if i == 1 then 90 else 91

abbrev at_rest : World
at_rest = record {
  cps_map = (6, 40) ∷ [];
  sent = [];
  timeouts = record { size = pos 0; node = 0; memory = λ a. none };
  overtime = pos 0;
  timeout_node = 0;
}

abbrev once : Usage
once = record { using = 1; used = 0 }

ne_of : (a b : ℕ) → (a == b) ≡ false → a ≢ b
ne_of a b h = ground arith

on_event-talks_example :
    (w' : World) × (on_event
        (list_queue 4)
        (links_of (steps_count 0 (first_talk ∷ second_talk ∷ [])))
        (run_steps 6 100 0 four_steps nodes)
        (rounds_of (first_talk ∷ second_talk ∷ []))
        (sending_at 0 once)
        (some at_rest)
      ≡ returned (course (first_talk ∷ second_talk ∷ [])).0 (done once) (some w'))
    × Talked 6 100 0 four_steps nodes 40 (course (first_talk ∷ second_talk ∷ [])).1 [] at_rest w'
unfolding find
on_event-talks_example =
    on_event-talks 6 100 0 four_steps nodes 4 40 first_talk (second_talk ∷ []) [] once at_rest
      (omega arith) (refl, refl, refl, ne_of 90 0 refl, (refl, refl, refl, ne_of 91 0 refl, tt))
      refl (ne_of 40 0 refl) ((ne_of 90 91 refl, tt), (tt, tt)) refl
