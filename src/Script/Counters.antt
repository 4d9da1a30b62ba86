-- ===== src/Script/Counters.antt =====
-- `enter` and `exit` of src/script.C as any number of threads call them at once, a shared access at a time, on
-- sequentially consistent memory. The counters are 64 bits wide, and `CAS` is the compare-and-swap of atomic.h.
pub mod Kept
mod Tests
use ptf.Prelude.{ℕ, ◌+◌, ◌-◌, ◌%◌, ◌^◌, ◌<◌, ◌≡◌, ◌≢◌}
use ptf.Prelude.Family.{update}
use ptf.Transaction.{Usage}

-- Where a thread stands, with its local `old`: outside of the script, in `enter`, inside, and in the
-- first and the second loop of `exit`.
pub data User : Type 0 where
  outside enters inside leaves counts : User
  entering leaving counting : (old : ℕ) → User

-- One access of a thread, with how many calls of `exit` return by it.
pub data Move (u : Usage) : User → Usage → User → ℕ → Type 0 where
  call_enter : Move u outside u enters 0
  load_enter : Move u enters u (entering u.using) 0
  win_enter :
      {old : ℕ}
      → u.using ≡ old
      → Move u (entering old) (record u { using = (old + 1) % 2 ^ 64 }) inside 0
  lose_enter : {old : ℕ} → u.using ≢ old → Move u (entering old) u enters 0
  call_exit : Move u inside u leaves 0
  load_exit : Move u leaves u (leaving u.using) 0
  win_exit :
      {old : ℕ}
      → u.using ≡ old
      → Move u (leaving old) (record u { using = (old + 2 ^ 64 - 1) % 2 ^ 64 }) counts 0
  lose_exit : {old : ℕ} → u.using ≢ old → Move u (leaving old) u leaves 0
  load_count : Move u counts u (counting u.used) 0
  win_count :
      {old : ℕ}
      → u.used ≡ old
      → Move u (counting old) (record u { used = (old + 1) % 2 ^ 64 }) outside 1
  lose_count : {old : ℕ} → u.used ≢ old → Move u (counting old) u counts 0

-- The counters, the threads by number, and the number of calls of `exit` that have returned
pub record System : Type 0 where
  pub usage : Usage
  pub users : ℕ → User
  pub exits : ℕ

-- One of the first `n` threads moves.
pub data Step (n : ℕ) (s : System) : System → Type 0 where
  pick :
      (i : ℕ) {u : Usage} {p : User} {done : ℕ}
      → i < n
      → Move s.usage (s.users i) u p done
      → Step n s (record { usage = u; users = update s.users i p; exits = s.exits + done })

abbrev pub boot : Usage → System
boot u = record { usage = u; users = λ _. outside; exits = 0 }

pub data Reach (n : ℕ) (u : Usage) : System → Type 0 where
  start : Reach n u (boot u)
  later : {s t : System} → Reach n u s → Step n s t → Reach n u t

-- Between the compare-and-swap of `enter` and that of the first loop of `exit`
abbrev pub is_inside : User → ℕ
is_inside inside = 1
is_inside leaves = 1
is_inside (leaving _) = 1
is_inside _ = 0
