-- ===== src/Pool/Lifetime.antt =====
-- The constructors and destructors of `TThreadData` and `TMptThreadPool` in src/mptthreadpool.C. What
-- `event_base_new` gives for `m_httpbase` is a parameter, as the rest of the system is in Pool/Setup.
pub mod Deleted
mod Tests
use ptf.Prelude.{
  ℕ, zero, suc, ◌+◌, Bool, true, false, if◌then◌else◌, length, Option, none, some, List, [], ◌∷◌,
  ◌++◌,
}
use ptf.Prelude.Pointer.{Pointer, unassigned, null, live, made_if}
use ptf.Event.{Command}
use ptf.Ring.{Ring, create, drain}
use ptf.Pool.Setup.{Os, open_pipes}

-- A `TThreadData` as far as its destructor looks at it, and whether a thread runs `workerFunc` on it
pub record Held : Type 0 where
  pub base : Pointer
  pub httpbase : Pointer
  pub queue : Ring Command
  pub running : Bool

-- `TThreadData::TThreadData`; `raw` is the memory that its ring gets. `m_base` is not assigned.
pub new_thread : (http : Bool) → List (Option Command) → Option Held
new_thread http raw = elim (create raw 256 true true) [
  | none ↦ none
  | some r ↦
      some (record { base = unassigned; httpbase = made_if http; queue = r; running = false })
]

-- `new TThreadData[nThread]`, from index `i` on, with the memory of each ring
pub new_threads : (http : ℕ → Bool) (i : ℕ) → List (List (Option Command)) → Option (List Held)
unfolding new_thread
new_threads http i [] = some []
new_threads http i (raw ∷ raws) = elim (new_thread (http i) raw) [
  | none ↦ none
  | some h ↦ elim (new_threads http (i + 1) raws) [ none ↦ none | some hs ↦ some (h ∷ hs) ]
]

-- What the first loop of `init` assigns: it ends at a pipe that cannot be made.
pub set_bases : Os → (i : ℕ) → List Held → List Held
set_bases os i [] = []
set_bases os i (h ∷ hs) =
    let rest = set_bases os (i + 1) hs in
    elim (os.pipe i) [ none ↦ h ∷ hs | some _ ↦ record h { base = made_if (os.base i) } ∷ rest ]

-- The second loop of `init`, which ends at a thread that cannot be made.
pub run_threads : Os → (i : ℕ) → List Held → List Held
run_threads os i [] = []
run_threads os i (h ∷ hs) =
    let rest = run_threads os (i + 1) hs in
    elim (os.create i) [ zero ↦ record h { running = true } ∷ rest | suc e ↦ h ∷ hs ]

-- `init` on threads that are just made
pub init_threads : Os → List Held → List Held
unfolding set_bases run_threads
init_threads os hs =
    if (open_pipes os 0 (length hs)).0
    then run_threads os 0 (set_bases os 0 hs)
    else set_bases os 0 hs

-- What a destructor comes to: it takes the base from under a thread that dispatches on it, and no thread ever ends; it
-- frees a pointer that nobody assigned, which is undefined; its fuel is out; or
-- it is through, and has deleted these commands.
pub data Deletion : Type 0 where
  in_use garbage exhausted : Deletion
  deleted : List Command → Deletion

abbrev pub after_drain : Option (List Command) → Deletion
after_drain none = exhausted
after_drain (some cs) = deleted cs

-- `~TThreadData`
abbrev pub delete_thread : (fuel junk : ℕ) → Held → Deletion
delete_thread fuel junk h = elim h.base [
  | unassigned ↦ garbage
  | null ↦ if h.running then in_use else after_drain (drain fuel junk h.queue)
  | live ↦ if h.running then in_use else after_drain (drain fuel junk h.queue)
]

abbrev pub and_before : Deletion → List Command → Deletion
and_before in_use cs = in_use
and_before garbage cs = garbage
and_before exhausted cs = exhausted
and_before (deleted ds) cs = deleted (cs ++ ds)

-- `delete[] m_threads`, the last one first
pub delete_threads : (fuel junk : ℕ) → List Held → Deletion
delete_threads fuel junk [] = deleted []
delete_threads fuel junk (h ∷ hs) = elim (delete_threads fuel junk hs) [
  | in_use ↦ in_use
  | garbage ↦ garbage
  | exhausted ↦ exhausted
  | deleted cs ↦ and_before (delete_thread fuel junk h) cs
]

-- `~TMptThreadPool`; `none` is `m_threads` NULL.
abbrev pub delete_pool : (fuel junk : ℕ) → Option (List Held) → Deletion
delete_pool fuel junk none = deleted []
delete_pool fuel junk (some hs) = delete_threads fuel junk hs
