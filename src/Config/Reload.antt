-- ===== src/Config/Reload.antt =====
-- What holds of the configuration of src/ptfconfig.C, however often it is read.
use ptf.Prelude.{◌≡◌, refl, ◌⊎◌, inl, inr, Bool, true, false, Option, none, some, [], ◌∷◌, arith}
use ptf.Prelude.Int.{ℤ, pos, ◌≤ℤ◌}
use ptf.Http.Text.{Text}
use ptf.Config.{Entries, Config, looked_up, workers_in_range, file_path, load, init}

-- Either it is the configuration `c`, and the reading failed, or the reading succeeded, and there are
-- between 1 and 65535 workers.
abbrev pub Loaded : Config → Option (Bool × Config) → Type 0
Loaded c none = Unit
Loaded c (some (done, c')) =
    ((done ≡ false) × (c' ≡ c))
    ⊎ ((done ≡ true) × (pos 1 ≤ℤ c'.n_worker) × (c'.n_worker ≤ℤ pos 65535))

workers_in_range-le : (n : ℤ) → (pos 1 ≤ℤ workers_in_range n) × (workers_in_range n ≤ℤ pos 65535)
workers_in_range-le n = (ground arith, ground arith)

load-Loaded : (o : Option Entries) (c : Config) → Loaded c (some (load o c))
unfolding load
load-Loaded none c = inl (refl, refl)
load-Loaded (some e) c =
    let (low, high) = workers_in_range-le (looked_up e.workers c.n_worker) in inr (refl, low, high)

-- Unless the path is too long for its buffer, `init` either fails and leaves the configuration as it
-- was, or succeeds with between 1 and 65535 workers, whatever the file says and `m_nWorker` held.
pub init-Loaded :
    (read : Text → Option Entries) (home : Text) (file : Option Text) (c : Config)
    → Loaded c (init read home file c)
unfolding init
init-Loaded read home none c = inl (refl, refl)
init-Loaded read home (some []) c = inl (refl, refl)
init-Loaded read home (some (ch ∷ cs)) c = at_path (file_path home (ch ∷ cs))
  where
    at_path :
        (o : Option Text)
        → Loaded c (elim o [ none ↦ none | some path ↦ some (load (read path) c) ])
    at_path none = tt
    at_path (some path) = load-Loaded (read path) c
