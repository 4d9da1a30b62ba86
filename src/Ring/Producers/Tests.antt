-- ===== src/Ring/Producers/Tests.antt =====
-- Two producers of src/ringbuff.h on a ring of four slots.
use mathlib.Core.List.{Mem}
use ptf.Prelude.{
  ℕ, ◌≡◌, ◌≢◌, zero, suc, refl, false, true, none, List, [], ◌∷◌, arith, length, if◌then◌else◌,
}
use ptf.Ring.Producers.Alone.{Leads, alone}
use ptf.Ring.{enqueue, Ring, next_index, slot}
use ptf.Ring.Rep.{Rep}
use ptf.Ring.Producers.{
  resting, System, Reach, start, later, pick, call, load_tail, check, fill, publish,
}
use ptf.Ring.Producers.Accepted.{Reach-Rep}
use ptf.Ring.Producers.Lost.{lost_item}

abbrev blank : Ring ℕ
blank = record {
  slots = none ∷ none ∷ none ∷ none ∷ [];
  size = 4;
  head = 0;
  tail = 0;
  sp = false;
  sc = true;
}

blank-Rep : Rep blank []
blank-Rep = record {
  big = omega arith;
  fits = omega arith;
  stored_len = refl;
  head_in = omega arith;
  tail_in = omega arith;
  room = omega arith;
  tail_at = refl;
  stored = tt;
}

all_null : (i : ℕ) → slot blank i ≡ none
all_null zero = refl
all_null (suc zero) = refl
all_null (suc (suc zero)) = refl
all_null (suc (suc (suc zero))) = refl
all_null (suc (suc (suc (suc i)))) = refl

moved : next_index 4 0 ≢ 0
moved e = omega arith

-- Producer 1 has called with 5 and stands still; producer 0 has stored 7.
one_in : (s : System ℕ) × Reach blank s × (s.accepted ≡ 7 ∷ []) × (s.offered ≡ 7 ∷ 5 ∷ [])
one_in = (
  _,
  later
      (later
        (later (later (later (later start (pick 1 (call 5))) (pick 0 (call 7))) (pick 0 load_tail))
          (pick 0 (check moved)))
        (pick 0 (fill refl refl)))
      (pick 0 (publish refl)),
  refl,
  refl,
)

Reach-Rep_example :
    (q : List ℕ) × Rep one_in.0.ring q
    × (length q ≡ length one_in.0.accepted)
    × ((x : ℕ) → Mem x q → Mem x one_in.0.offered)
Reach-Rep_example = Reach-Rep refl blank-Rep all_null one_in.1

lost_item_example :
    (s : System ℕ) × Reach blank s
    × (s.accepted ≡ 7 ∷ 9 ∷ [])
    × (s.offered ≡ 9 ∷ 7 ∷ [])
    × Rep s.ring (7 ∷ 7 ∷ [])
lost_item_example = lost_item 7 9 refl (λ e. omega (arith, e)) blank-Rep (omega arith) refl refl

alone_example :
    Leads blank 4 (enqueue blank 7).1 resting (7 ∷ []) (if (enqueue blank 7).0 then 7 ∷ [] else [])
alone_example = alone blank 4 7 refl
