-- ===== src/Ring/Spsc.antt =====
-- src/ringbuff.h with one producer thread and one consumer thread (`m_sp` and `m_sc` true), a shared
-- access at a time, on sequentially consistent memory. The queues of `TThreadData` and `TTransation`
-- are used so. A consumer either polls first, as `TTransation::onEvent` does by `size() > 0`, or
-- calls `dequeue` outright; `polls` says which.
pub mod Invariant
pub mod ConsumerSide
pub mod Safety
use ptf.Prelude.{ℕ, ◌≡◌, ◌≢◌, Bool, true, false, Option, none, some, List, [], ◌∷◌, ◌++◌, set}
use ptf.Ring.{Ring, next_index, slot}

-- Where a thread stands, with the locals that are live there.
pub data Producer (A : Type 0) : Type 0 where
  resting : Producer A
  loaded : (item : A) (tail_old : ℕ) → Producer A
  checked : (item : A) (tail_old tail_new : ℕ) → Producer A
  written : (item : A) (tail_new : ℕ) → Producer A

pub data Consumer (A : Type 0) : Type 0 where
  idle : Consumer A
  entering : Consumer A
  at_head : (head_old : ℕ) → Consumer A
  fetched : (head_old : ℕ) (p : Option A) → Consumer A
  nonempty : (head_old : ℕ) (p : Option A) → Consumer A
  cleared : (p : A) (head_new : ℕ) → Consumer A

module _ {A : Type 0} where
  -- One access of `enqueue`, and the items that it publishes.
  pub data Produce (r : Ring A) : Producer A → Ring A → Producer A → List A → Type 0 where
    load_tail : (x : A) → Produce r resting r (loaded x r.tail) []
    refuse : {x : A} {t : ℕ} → next_index r.size t ≡ r.head → Produce r (loaded x t) r resting []
    check :
        {x : A} {t : ℕ}
        → next_index r.size t ≢ r.head
        → Produce r (loaded x t) r (checked x t (next_index r.size t)) []
    write_slot :
        {x : A} {t u : ℕ}
        → Produce r (checked x t u) (record r { slots = set r.slots t (some x) }) (written x u) []
    publish : {x : A} {u : ℕ} → Produce r (written x u) (record r { tail = u }) resting (x ∷ [])

  -- One access of `dequeue` or of the poll before it, and the items that it hands out. `stale` is the
  -- `continue` on a NULL that was read before the test of `m_tail`: the closing compare-and-swap
  -- finds `m_head` unmoved and stores the unassigned `headNew`.
  pub data Consume (polls : Bool) (r : Ring A)
      : Consumer A → Ring A → Consumer A → List A → Type 0 where
    poll : r.head ≢ r.tail → Consume polls r idle r entering []
    barge : polls ≡ false → Consume polls r idle r entering []
    load_head : Consume polls r entering r (at_head r.head) []
    fetch : {h : ℕ} → Consume polls r (at_head h) r (fetched h (slot r h)) []
    empty : {h : ℕ} {p : Option A} → h ≡ r.tail → Consume polls r (fetched h p) r idle []
    more : {h : ℕ} {p : Option A} → h ≢ r.tail → Consume polls r (fetched h p) r (nonempty h p) []
    clear :
        {h : ℕ} {p : A}
        → Consume polls r
            (nonempty h (some p))
            (record r { slots = set r.slots h none })
            (cleared p (next_index r.size h))
            []
    stale :
        {h : ℕ} (junk : ℕ)
        → r.head ≡ h
        → Consume polls r (nonempty h none) (record r { head = junk }) idle []
    advance : {p : A} {u : ℕ} → Consume polls r (cleared p u) (record r { head = u }) idle (p ∷ [])

-- Both threads, with what has been published and what has been handed out, oldest first.
pub record System (A : Type 0) : Type 0 where
  pub ring : Ring A
  pub producer : Producer A
  pub consumer : Consumer A
  pub sent : List A
  pub got : List A

module _ {A : Type 0} where
  pub data Step (polls : Bool) (s : System A) : System A → Type 0 where
    produces :
        {r : Ring A} {p : Producer A} {out : List A}
        → Produce s.ring s.producer r p out
        → Step polls s (record s { ring = r; producer = p; sent = s.sent ++ out })
    consumes :
        {r : Ring A} {c : Consumer A} {out : List A}
        → Consume polls s.ring s.consumer r c out
        → Step polls s (record s { ring = r; consumer = c; got = s.got ++ out })

  abbrev pub boot : Ring A → System A
  boot r = record { ring = r; producer = resting; consumer = idle; sent = []; got = [] }

  -- The states that some interleaving reaches from a ring at rest.
  pub data Reach (polls : Bool) (r : Ring A) : System A → Type 0 where
    start : Reach polls r (boot r)
    later : {s t : System A} → Reach polls r s → Step polls s t → Reach polls r t
