-- ===== src/RingTest/Tests.antt =====
-- src/test/test_ringbuffer.C with two producers of three numbers each, and a ring of five slots.
use Prim.Native.Nat.{min}
use ptf.Prelude.{
  upto, ℕ, ◌-◌, ◌*◌, ◌≡◌, refl, inr, zero, suc, Option, none, some, List, [], ◌∷◌, ◌++◌, map,
  replicate, arith, get_or,
}
use ptf.Ring.{Ring}
use ptf.Http.Text.{Text}
use ptf.Text.{codes, atoi, read_digits}
use ptf.RingTest.{Options, QData, defaults, read_options, new_ring, assign, produce_all, consume}
use ptf.RingTest.InTurn.{in_turn}

abbrev two_by_three : Options
two_by_three = record { producers = 2; consumers = 1; size = 5; total = 3 }

-- `-p 2 -s 5 -t 3 -c 0`
abbrev two_options : List (ℕ × Text)
two_options = (b'p', codes "2") ∷ (b's', codes "5") ∷ (b't', codes "3") ∷ (b'c', codes "0") ∷ []

parsed : read_options two_options defaults ≡ some two_by_three
unfolding read_options atoi read_digits
parsed = refl

abbrev no_slots : List (Option ℕ)
no_slots = replicate 5 none

all_null : (i : ℕ) → get_or no_slots i none ≡ none
all_null zero = refl
all_null (suc zero) = refl
all_null (suc (suc zero)) = refl
all_null (suc (suc (suc zero))) = refl
all_null (suc (suc (suc (suc zero)))) = refl
all_null (suc (suc (suc (suc (suc i))))) = refl

-- Four fit.
in_turn_example :
    (r : Ring ℕ) × (ps : List QData) × (new_ring no_slots two_by_three ≡ some r)
    × (assign 3 0 2 ≡ some ps)
    × ((consume 5 77 (produce_all ps r)).0
        ≡ map (λ n. some n) (upto 0 (min (2 * 3) (5 - 1)))
          ++ replicate (5 - min (2 * 3) (5 - 1)) none)
in_turn_example =
    in_turn two_options two_by_three no_slots 77 parsed refl (omega arith) (inr all_null)
      (omega arith)
