-- ===== src/Ring/Producers.antt =====
-- `enqueue` of src/ringbuff.h as any number of producer threads call it at once, a shared
-- access at a time, on sequentially consistent memory and while nothing is dequeued. `CAS` is the
-- compare-and-swap of atomic.h.
pub mod Known
pub mod Accepted
pub mod Alone
pub mod Lost
mod Tests
use ptf.Prelude.{
  ℕ, ◌≡◌, ◌≢◌, true, false, none, some, List, [], ◌∷◌, ◌++◌, ◌==◌, if◌then◌else◌, set,
}
use ptf.Prelude.Family.{update}
use ptf.Ring.{Ring, next_index, slot}

-- Where a producer stands, with the locals that are live there: before it loads `m_tail`, with
-- `tailOld`, with `tailNew`, after the compare-and-swap of the slot, which it won or lost, and, as
-- the single producer (`m_sp`), after its write of the slot.
pub data Producer (A : Type 0) : Type 0 where
  resting : Producer A
  entered : (item : A) → Producer A
  loaded : (item : A) (tail_old : ℕ) → Producer A
  checked : (item : A) (tail_old tail_new : ℕ) → Producer A
  stored : (item : A) (tail_old tail_new : ℕ) → Producer A
  missed : (item : A) (tail_old tail_new : ℕ) → Producer A
  written : (item : A) (tail_new : ℕ) → Producer A

-- What a move shows outside: nothing, a call, or a call that returned true.
pub data Label (A : Type 0) : Type 0 where
  silent : Label A
  offers accepts : A → Label A

module _ {A : Type 0} where
  -- One access of `enqueue`. A lost compare-and-swap of the slot is a `continue`, which goes on to
  -- the closing one, on `m_tail`; if that is won the call returns true. With `m_sp` both are plain
  -- writes.
  pub data Move (r : Ring A) : Producer A → Ring A → Producer A → Label A → Type 0 where
    call : (x : A) → Move r resting r (entered x) (offers x)
    load_tail : {x : A} → Move r (entered x) r (loaded x r.tail) silent
    refuse : {x : A} {t : ℕ} → next_index r.size t ≡ r.head → Move r (loaded x t) r resting silent
    check :
        {x : A} {t : ℕ}
        → next_index r.size t ≢ r.head
        → Move r (loaded x t) r (checked x t (next_index r.size t)) silent
    write :
        {x : A} {t u : ℕ}
        → r.sp ≡ true
        → Move r (checked x t u) (record r { slots = set r.slots t (some x) }) (written x u) silent
    put : {x : A} {u : ℕ} → Move r (written x u) (record r { tail = u }) resting (accepts x)
    fill :
        {x : A} {t u : ℕ}
        → r.sp ≡ false
        → slot r t ≡ none
        → Move r (checked x t u) (record r { slots = set r.slots t (some x) }) (stored x t u) silent
    miss :
        {x : A} {t u : ℕ} (y : A)
        → r.sp ≡ false
        → slot r t ≡ some y
        → Move r (checked x t u) r (missed x t u) silent
    publish :
        {x : A} {t u : ℕ}
        → r.tail ≡ t
        → Move r (stored x t u) (record r { tail = u }) resting (accepts x)
    retry : {x : A} {t u : ℕ} → r.tail ≢ t → Move r (stored x t u) r (entered x) silent
    push_on :
        {x : A} {t u : ℕ}
        → r.tail ≡ t
        → Move r (missed x t u) (record r { tail = u }) resting (accepts x)
    again : {x : A} {t u : ℕ} → r.tail ≢ t → Move r (missed x t u) r (entered x) silent

  abbrev pub offered_by : Label A → List A
  offered_by (offers x) = x ∷ []
  offered_by _ = []

  abbrev pub accepted_by : Label A → List A
  accepted_by (accepts x) = x ∷ []
  accepted_by _ = []

-- The ring and its producers, by number, with the items of the calls so far and of those that
-- returned true, oldest last.
pub record System (A : Type 0) : Type 0 where
  pub ring : Ring A
  pub pcs : ℕ → Producer A
  pub offered : List A
  pub accepted : List A

module _ {A : Type 0} where
  pub data Step (s : System A) : System A → Type 0 where
    pick :
        (i : ℕ) {r : Ring A} {p : Producer A} {l : Label A}
        → Move s.ring (s.pcs i) r p l
        → Step s (record {
          ring = r;
          pcs = update s.pcs i p;
          offered = offered_by l ++ s.offered;
          accepted = accepted_by l ++ s.accepted;
        })

  abbrev pub boot : Ring A → System A
  boot r = record { ring = r; pcs = λ _. resting; offered = []; accepted = [] }

  -- The states that some interleaving reaches from a ring at rest.
  pub data Reach (r : Ring A) : System A → Type 0 where
    start : Reach r (boot r)
    later : {s t : System A} → Reach r s → Step s t → Reach r t
