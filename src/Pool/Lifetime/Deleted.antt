-- ===== src/Pool/Lifetime/Deleted.antt =====
-- What the destructors of src/mptthreadpool.C delete.
use ptf.Prelude.{
  ℕ, zero, suc, ◌≡◌, ◌≢◌, refl, Bool, true, false, Option, some, List, [], ◌∷◌, ◌++◌, arith, length,
  if◌then◌else◌,
}
use ptf.Prelude.Pointer.{Pointer, unassigned, null, live}
use ptf.Event.{Command}
use ptf.Ring.{create, drain}
use ptf.Ring.Rep.{Rep}
use ptf.Ring.Refine.{drain_refines}
use ptf.Pool.Setup.{Os, open_pipes}
use ptf.Pool.Lifetime.{
  Held, Deletion, in_use, garbage, deleted, delete_thread, delete_threads, delete_pool,
}

-- The workers have their bases and no threads, and their rings hold these commands.
abbrev pub Holding : List Held → List (List Command) → Type 0
Holding [] [] = Unit
Holding [] (q ∷ qs) = ⊥
Holding (h ∷ hs) [] = ⊥
Holding (h ∷ hs) (q ∷ qs) =
    (h.base ≢ unassigned)
    × Rep h.queue q
    × (h.queue.size ≡ 256)
    × (h.running ≡ false)
    × Holding hs qs

-- The commands of the last worker first, each worker's oldest first
pub last_first : List (List Command) → List Command
last_first [] = []
last_first (q ∷ qs) = last_first qs ++ q

delete_thread_gives :
    (junk : ℕ) (h : Held) (q : List Command)
    → h.base ≢ unassigned
    → Rep h.queue q
    → h.queue.size ≡ 256
    → h.running ≡ false
    → delete_thread 256 junk h ≡ deleted q
delete_thread_gives junk h q ne v size idle = at_base h.base ne
  where
    drained : drain 256 junk h.queue ≡ some q
    drained = drain_refines 256 junk q v (omega (arith, v.room, size))

    at_base :
        (b : Pointer) → b ≢ unassigned → delete_thread 256 junk (record h { base = b }) ≡ deleted q
    at_base unassigned apart = absurd (apart refl)
    at_base null apart = rw (idle, drained)
    at_base live apart = rw (idle, drained)

-- On workers that have their bases but no threads, and whose rings hold their waiting commands, the destructor of the
-- pool ends, within 256 rounds for a ring, and deletes exactly the commands that wait, the
-- last worker's first and each worker's oldest first.
pub delete_pool-Holding :
    (junk : ℕ) (hs : List Held) (qs : List (List Command))
    → Holding hs qs
    → delete_pool 256 junk (some hs) ≡ deleted (last_first qs)
unfolding delete_threads last_first
delete_pool-Holding junk [] [] v = refl
delete_pool-Holding junk [] (q ∷ qs) v = absurd v
delete_pool-Holding junk (h ∷ hs) [] v = absurd v
delete_pool-Holding junk (h ∷ hs) (q ∷ qs) (ne, rep, size, idle, rest) =
    rw (delete_pool-Holding junk hs qs rest, delete_thread_gives junk h q ne rep size idle) refl

-- Workers as their constructors leave them.
abbrev pub Fresh : List Held → Type 0
Fresh [] = Unit
Fresh (h ∷ hs) =
    (h.base ≡ unassigned) × Rep h.queue [] × (h.queue.size ≡ 256) × (h.running ≡ false) × Fresh hs

-- Each ring is given 256 slots.
abbrev pub Sized : List (List (Option Command)) → Type 0
Sized [] = Unit
Sized (raw ∷ raws) = (length raw ≡ 256) × Sized raws

nothing_waits : List Held → List (List Command)
nothing_waits [] = []
nothing_waits (h ∷ hs) = [] ∷ nothing_waits hs

-- Whether a thread is made, by what `pthread_create` gives for the first worker, `i`
abbrev pub any_thread : Os → (i workers : ℕ) → Bool
any_thread os i zero = false
any_thread os i (suc n) = elim (os.create i) [ zero ↦ true | suc e ↦ false ]

-- What deleting a pool straight after `init` comes to, for so many workers
abbrev pub expected : Os → ℕ → Deletion
expected os n =
    if (open_pipes os 0 n).0 then (if any_thread os 0 n then in_use else deleted []) else garbage
