-- ===== src/Timeout/Tests.antt =====
-- Two nodes, 10 in front of 20.
use ptf.Prelude.{◌≡◌, refl, inl, inr, none, some, [], ◌∷◌, arith, ◌==◌, if◌then◌else◌}
use ptf.Prelude.Int.{pos, ◌-ℤ◌}
use ptf.Timeout.{TimeoutNode, Memory, TimeoutQueue, en_tqueue, de_tqueue, dangling, scan}
use ptf.Timeout.Chain.{Linked, Apart, en_tqueue-Linked}
use ptf.Timeout.Removed.{de_tqueue-Linked}
use ptf.Timeout.Scan.{scan-SomePending}

abbrev first_node : TimeoutNode
first_node = record { time = 5; name = 0; transaction = 1; next = 20; parent = 0 }

abbrev second_node : TimeoutNode
second_node = record { time = 9; name = 0; transaction = 2; next = 0; parent = 10 }

-- A new node, not on the list yet.
abbrev new_node : TimeoutNode
new_node = record { time = 12; name = 0; transaction = 3; next = 0; parent = 0 }

abbrev two_nodes : Memory
two_nodes a =
    if a == 10
    then some first_node
    else if a == 20
    then some second_node
    else if a == 30
    then some new_node
    else none

abbrev two_waiting : TimeoutQueue
two_waiting = record { size = pos 2; node = 10; memory = two_nodes }

two_waiting-Linked : Linked two_nodes 0 10 (10 ∷ 20 ∷ [])
two_waiting-Linked = (
  refl,
  (λ e. omega arith),
  (first_node, refl, refl, (refl, (λ e. omega arith), (second_node, refl, refl, refl))),
)

en_tqueue-Linked_example :
    (q' : TimeoutQueue) × (en_tqueue 77 30 two_waiting ≡ some q')
    × Linked q'.memory 0 q'.node (30 ∷ 10 ∷ 20 ∷ [])
en_tqueue-Linked_example =
    en_tqueue-Linked 77 30 (10 ∷ 20 ∷ []) two_waiting (λ e. omega arith) refl two_waiting-Linked
      (((λ e. omega arith), ((λ e. omega arith), tt)), (((λ e. omega arith), tt), (tt, tt)))

-- At 7 the second is not over.
scan-SomePending_example : scan 3 7 10 two_waiting ≡ dangling
scan-SomePending_example =
    scan-SomePending 3 7 0 10 (10 ∷ 20 ∷ []) two_waiting two_waiting-Linked
      (inr (inl (second_node, refl, omega arith))) (omega arith)

two_nodes-Apart : Apart (10 ∷ 20 ∷ [])
two_nodes-Apart = (((λ e. omega arith), tt), (tt, tt))

de_tqueue-Linked_example :
    (q' : TimeoutQueue) × (de_tqueue 20 two_waiting ≡ some q')
    × (q'.node ≡ 10)
    × (q'.size ≡ pos 2 -ℤ pos 1)
    × (q'.memory 20 ≡ none)
    × Linked q'.memory 0 q'.node (10 ∷ [])
de_tqueue-Linked_example =
    de_tqueue-Linked [] 10 20 [] two_waiting two_nodes-Apart two_waiting-Linked
