-- ===== src/Pool/Lifetime/Tests.antt =====
-- Pools of two workers of src/mptthreadpool.C, made and deleted.
use ptf.Prelude.{zero, suc, ◌≡◌, refl, true, false, Option, none, some, List, replicate}
use ptf.Event.{Command}
use ptf.Pool.Setup.{Os, open_pipes}

abbrev memory : List (Option Command)
memory = replicate 256 none

-- The second pipe cannot be made.
abbrev one_pipe : Os
one_pipe = record {
  pipe = λ i. elim i [ zero ↦ some (3, 4) | suc _ ↦ none ];
  base = λ _. true;
  add_event = λ _. true;
  create = λ _. 0;
}

-- All can be made.
abbrev granted : Os
granted = record one_pipe { pipe = λ i. some (3, 4) }

second_fails : (open_pipes one_pipe 0 2).0 ≡ false
unfolding open_pipes
second_fails = refl
