-- ===== src/Pool/Setup.antt =====
-- `TMptThreadPool::init`, `setupThread` and `createThread` of src/mptthreadpool.C. What `pipe`,
-- `event_base_new`, `event_add` and `pthread_create` answer for the worker of each index is given.
pub mod Outcome
use ptf.Prelude.{
  ℕ, zero, suc, ◌+◌, Bool, true, false, Option, none, some, List, [], ◌∷◌, ◌++◌, if◌then◌else◌,
}
use ptf.Prelude.Int.{ℤ, pos, negsuc}

pub record Os : Type 0 where
  pub pipe : ℕ → Option (ℕ × ℕ)
  pub base : ℕ → Bool
  pub add_event : ℕ → Bool
  -- `pthread_create`: 0, or an error number
  pub create : ℕ → ℕ

-- A `TThreadData` as far as `init` fills it in. `set_up` is the result of `setupThread`.
pub record Worker : Type 0 where
  pub read_fd : ℕ
  pub write_fd : ℕ
  pub set_up : ℤ
  pub running : Bool

-- `m_threads` with `m_nCount`; NULL until `init`.
pub record PoolState : Type 0 where
  pub count : ℕ
  pub threads : Option (List Worker)

module _ (os : Os) where
  -- `setupThread`
  unfoldable pub setup_thread : ℕ → ℤ
  setup_thread i = if os.base i then (if os.add_event i then pos 0 else negsuc 2) else negsuc 1

  -- The first loop, from index `i` with `n` workers to go. The flag says whether every pipe was made.
  unfoldable pub open_pipes : ℕ → ℕ → Bool × List Worker
  open_pipes i zero = (true, [])
  open_pipes i (suc n) =
      let (all, ws) = open_pipes (i + 1) n in
      elim (os.pipe i) [
        | none ↦ (false, [])
        | some (r, w) ↦ (
          all,
          record { read_fd = r; write_fd = w; set_up = setup_thread i; running = false } ∷ ws,
        )
      ]

  -- The second loop: the result is the code of the first `createThread` that fails.
  unfoldable pub create_threads : ℕ → List Worker → ℕ × List Worker
  create_threads i [] = (0, [])
  create_threads i (w ∷ ws) =
      let (code, ws') = create_threads (i + 1) ws in
      elim (os.create i) [
        | zero ↦ (code, record w { running = true } ∷ ws')
        | suc e ↦ (suc e, w ∷ ws)
      ]

  -- `init`. The array is never NULL: `new` reports failure by an exception.
  unfoldable pub init : PoolState → ℕ → ℤ × PoolState
  init s n = elim s.threads [
    | some ws ↦ (negsuc 0, s)
    | none ↦
        (let (all, ws) = open_pipes 0 n in
          if all
          then (let (code, ws') = create_threads 0 ws in
              (pos code, record { count = n; threads = some ws' }))
          else (negsuc 2, record { count = n; threads = some ws }))
  ]
