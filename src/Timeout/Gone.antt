-- ===== src/Timeout/Gone.antt =====
-- A node that `deTqueue` of src/timeoutqueue.C takes out is deleted.
use ptf.Prelude.{ℕ, suc, ◌≡◌, true, Option, none, some, arith, ◌==◌}
use ptf.Prelude.Int.{pos, ◌-ℤ◌}
use ptf.Timeout.{TimeoutNode, Memory, free, link_next, link_parent, TimeoutQueue, de_tqueue}

pub freed : (a : ℕ) (mem : Memory) → free a mem a ≡ none
freed a mem = rw (same a)
  where
    same : (k : ℕ) → (k == k) ≡ true
    same k = ground arith

-- If there is a queue, the node is gone.
abbrev pub Gone : ℕ → Option TimeoutQueue → Type 0
Gone a none = Unit
Gone a (some q) = q.memory a ≡ none

-- A node that is taken out of the queue is deleted.
pub de_tqueue-Gone : (a : ℕ) (q : TimeoutQueue) → Gone (suc a) (de_tqueue (suc a) q)
unfolding de_tqueue
de_tqueue-Gone a q = at_node (q.memory (suc a))
  where
    unlinked :
        (o : Option Memory)
        → Gone (suc a) (elim o [
          | none ↦ none
          | some mem ↦ some (record q { size = q.size -ℤ pos 1; memory = free (suc a) mem })
        ])
    unlinked none = tt
    unlinked (some mem) = freed (suc a) mem

    at_child :
        (n : TimeoutNode) (o : Option Memory)
        → Gone (suc a) (elim o [
          | none ↦ none
          | some mem ↦ elim (link_parent n.next n.parent mem) [
            | none ↦ none
            | some mem' ↦ some (record q { size = q.size -ℤ pos 1; memory = free (suc a) mem' })
          ]
        ])
    at_child n none = tt
    at_child n (some mem) = unlinked (link_parent n.next n.parent mem)

    at_node :
        (o : Option TimeoutNode)
        → Gone (suc a) (elim o [
          | none ↦ none
          | some n ↦ elim (link_next n.parent n.next q.memory) [
            | none ↦ none
            | some mem ↦ elim (link_parent n.next n.parent mem) [
              | none ↦ none
              | some mem' ↦ some (record q { size = q.size -ℤ pos 1; memory = free (suc a) mem' })
            ]
          ]
        ])
    at_node none = tt
    at_node (some n) = at_child n (link_next n.parent n.next q.memory)
