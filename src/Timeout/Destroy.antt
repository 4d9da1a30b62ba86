-- ===== src/Timeout/Destroy.antt =====
-- `~TimeoutQueue` of src/timeoutqueue.C, which reads the next node of one that it has just deleted.
use ptf.Prelude.{ℕ, zero, suc, ◌≡◌, refl, ◌≢◌, Option, none, some}
use ptf.Timeout.{TimeoutQueue, de_tqueue}
use ptf.Timeout.Gone.{Gone, de_tqueue-Gone}

-- What it comes to: it is out of fuel, uses a node that is gone, or is through.
pub data Destruction : Type 0 where
  exhausted dangling : Destruction
  destroyed : TimeoutQueue → Destruction

-- `node = node->m_next`, after the node was taken out
abbrev pub next_of : ℕ → TimeoutQueue → (ℕ → TimeoutQueue → Destruction) → Destruction
next_of a q f = elim (q.memory a) [ none ↦ dangling | some n ↦ f n.next q ]

-- The loop
pub destroy_from : ℕ → ℕ → TimeoutQueue → Destruction
destroy_from zero a q = exhausted
destroy_from (suc fuel) zero q = destroyed q
destroy_from (suc fuel) (suc a) q = elim (de_tqueue (suc a) q) [
  | none ↦ dangling
  | some q' ↦ next_of (suc a) q' (destroy_from fuel)
]

-- `~TimeoutQueue`
pub destroy_queue : ℕ → TimeoutQueue → Destruction
destroy_queue fuel q = destroy_from fuel q.node q

destroy_from-dangling :
    (fuel a : ℕ) (q : TimeoutQueue) → destroy_from (suc fuel) (suc a) q ≡ dangling
unfolding destroy_from
destroy_from-dangling fuel a q = at_result (de_tqueue (suc a) q) (de_tqueue-Gone a q)
  where
    at_result :
        (o : Option TimeoutQueue)
        → Gone (suc a) o
        → elim o [ none ↦ dangling | some q' ↦ next_of (suc a) q' (destroy_from fuel) ] ≡ dangling
    at_result none g = refl
    at_result (some q') g = rw (g, next_of)

-- The destructor of any queue that is not empty uses a node that is gone, at the first node already.
pub destroy_queue-dangling :
    (fuel : ℕ) (q : TimeoutQueue) → q.node ≢ 0 → destroy_queue (suc fuel) q ≡ dangling
unfolding destroy_queue
destroy_queue-dangling fuel q ne = at_node q.node ne
  where
    at_node : (a : ℕ) → a ≢ 0 → destroy_from (suc fuel) a q ≡ dangling
    at_node zero h = absurd (h refl)
    at_node (suc a) h = destroy_from-dangling fuel a q
