-- ===== src/Timeout.antt =====
-- src/timeoutqueue.h, src/timeoutqueue.C: the list of nodes that say when a transaction's time is over.
-- Memory is a function from addresses to live nodes, and 0 is NULL; reading or writing a node that is
-- not live is undefined. The lock is held for each operation as a whole.
pub mod Chain
pub mod Gone
pub mod Removed
pub mod Scan
pub mod Destroy
mod Tests
use ptf.Prelude.{
  ℕ, zero, suc, ◌+◌, Bool, true, false, Option, none, some, List, [], ◌∷◌, ◌++◌, leb, ◌==◌,
  if◌then◌else◌,
}
use ptf.Prelude.Int.{ℤ, pos, ◌+ℤ◌, ◌-ℤ◌, ltb_ℤ}

-- `TimeoutNode`, with its transaction by number
pub record TimeoutNode : Type 0 where
  pub time : ℕ
  pub name : ℕ
  pub transaction : ℕ
  pub next : ℕ
  pub parent : ℕ

abbrev pub Memory : Type 0
Memory = ℕ → Option TimeoutNode

abbrev pub write : ℕ → TimeoutNode → Memory → Memory
write a n mem b = if b == a then some n else mem b

-- `delete`
abbrev pub free : ℕ → Memory → Memory
free a mem b = if b == a then none else mem b

-- `TimeoutQueue`, with the memory that its nodes are in
pub record TimeoutQueue : Type 0 where
  pub size : ℤ
  pub node : ℕ
  pub memory : Memory

-- `TimeoutQueue::TimeoutQueue`
abbrev pub new_queue : Memory → TimeoutQueue
new_queue mem = record { size = pos 0; node = 0; memory = mem }

-- `enTqueue`; `none` is undefined.
unfoldable pub en_tqueue : (rand a : ℕ) → TimeoutQueue → Option TimeoutQueue
en_tqueue rand a q =
    let size' = q.size +ℤ pos 1 in
    if q.node == 0
    then elim (q.memory a) [
      | none ↦ none
      | some n ↦ some (record {
        size = size';
        node = a;
        memory = write a (record n { parent = 0; next = 0 }) q.memory;
      })
    ]
    else elim (q.memory q.node) [
      | none ↦ none
      | some h ↦
          (let memory' = write q.node (record h { parent = a; name = h.time + rand }) q.memory in
            elim (memory' a) [
              | none ↦ none
              | some n ↦ some (record {
                size = size';
                node = a;
                memory = write a (record n { next = q.node; parent = 0 }) memory';
              })
            ])
    ]

-- `nodepar->m_next = nodechild`, and nothing where `nodepar` is NULL
abbrev pub link_next : (a child : ℕ) → Memory → Option Memory
link_next zero child mem = some mem
link_next (suc a) child mem = elim (mem (suc a)) [
  | none ↦ none
  | some n ↦ some (write (suc a) (record n { next = child }) mem)
]

-- `nodechild->m_parent = nodepar`
abbrev pub link_parent : (a par : ℕ) → Memory → Option Memory
link_parent zero par mem = some mem
link_parent (suc a) par mem = elim (mem (suc a)) [
  | none ↦ none
  | some n ↦ some (write (suc a) (record n { parent = par }) mem)
]

-- `deTqueue`. It leaves `m_node` as it is.
pub de_tqueue : ℕ → TimeoutQueue → Option TimeoutQueue
de_tqueue zero q = some q
de_tqueue (suc a) q = elim (q.memory (suc a)) [
  | none ↦ none
  | some n ↦ elim (link_next n.parent n.next q.memory) [
    | none ↦ none
    | some mem ↦ elim (link_parent n.next n.parent mem) [
      | none ↦ none
      | some mem' ↦ some (record q { size = q.size -ℤ pos 1; memory = free (suc a) mem' })
    ]
  ]
]

-- What a pass of `lookuptime` comes to: it uses a node that is gone, or it is through and has pushed
-- a timeout to these transactions; or its fuel is out.
pub data Pass : Type 0 where
  exhausted : Pass
  dangling : Pass
  through : List ℕ → TimeoutQueue → Pass

abbrev pub pushed : ℕ → Pass → Pass
pushed t exhausted = exhausted
pushed t dangling = dangling
pushed t (through ts q) = through (t ∷ ts) q

-- The inner loop of `lookuptime`, at time `now`, from the node `a` on.
pub scan : ℕ → (now a : ℕ) → TimeoutQueue → Pass
scan zero now a q = exhausted
scan (suc fuel) now zero q = through [] q
scan (suc fuel) now (suc a) q = elim (q.memory (suc a)) [
  | none ↦ dangling
  | some n ↦
      (if leb now n.time
        then elim (de_tqueue (suc a) q) [
          | none ↦ dangling
          | some q' ↦ elim (q'.memory (suc a)) [
            | none ↦ dangling
            | some n' ↦ pushed n.transaction (scan fuel now n'.next q')
          ]
        ]
        else scan fuel now n.next q)
]

-- One round of `lookuptime`
pub look_up : ℕ → (now : ℕ) → TimeoutQueue → Pass
look_up fuel now q = if ltb_ℤ (pos 0) q.size then scan fuel now q.node q else through [] q

-- The rounds of `lookuptime`, which has no end, at these times; the transactions of each round that it pushed to.
pub watch : ℕ → List ℕ → TimeoutQueue → Pass
watch fuel [] q = through [] q
watch fuel (now ∷ later) q = elim (look_up fuel now q) [
  | exhausted ↦ exhausted
  | dangling ↦ dangling
  | through ts q' ↦ elim (watch fuel later q') [
    | exhausted ↦ exhausted
    | dangling ↦ dangling
    | through us q'' ↦ through (ts ++ us) q''
  ]
]
