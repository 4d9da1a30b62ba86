-- ===== src/Pool/Setup/Outcome.antt =====
-- When `TMptThreadPool::init` of src/mptthreadpool.C succeeds, and what it then has set up.
use ptf.Prelude.{
  ℕ, zero, suc, ◌+◌, ◌≡◌, refl, ap, Bool, true, false, none, some, List, [], ◌∷◌, arith, length,
}
use ptf.Prelude.Int.{pos, negsuc}
use ptf.Pool.Setup.{Os, Worker, PoolState, setup_thread, open_pipes, create_threads, init}

module _ (os : Os) where
  -- The operating system grants everything that the workers from `i` on ask for, but for what
  -- `setupThread` asks, which `init` does not look at.
  abbrev pub Grants : ℕ → ℕ → Type 0
  Grants i zero = Unit
  Grants i (suc n) =
      ((r : ℕ) × (w : ℕ) × (os.pipe i ≡ some (r, w))) × (os.create i ≡ 0) × Grants (i + 1) n

  -- The workers from `i` on, each with its pipe and its thread, and whatever `setupThread` said.
  abbrev pub Started : ℕ → List Worker → Type 0
  Started i [] = Unit
  Started i (w ∷ ws) =
      (os.pipe i ≡ some (w.read_fd, w.write_fd))
      × (w.set_up ≡ setup_thread os i)
      × (w.running ≡ true)
      × Started (i + 1) ws

  abbrev worker : ℕ → ℕ → ℕ → Bool → Worker
  worker i r w running = record {
    read_fd = r;
    write_fd = w;
    set_up = setup_thread os i;
    running = running;
  }

  open_pipes-suc :
      (i n : ℕ) {r w : ℕ}
      → os.pipe i ≡ some (r, w)
      → open_pipes os i (suc n)
        ≡ ((open_pipes os (i + 1) n).0, worker i r w false ∷ (open_pipes os (i + 1) n).1)
  unfolding open_pipes
  open_pipes-suc i n e = rw (e, open_pipes)

  create_threads-cons :
      (i : ℕ) (w : Worker) (ws : List Worker)
      → os.create i ≡ 0
      → create_threads os i (w ∷ ws) ≡ (
        (create_threads os (i + 1) ws).0,
        record w { running = true } ∷ (create_threads os (i + 1) ws).1,
      )
  unfolding create_threads
  create_threads-cons i w ws e = rw (e, create_threads)

  loops-Started :
      (i n : ℕ)
      → Grants i n
      → let (all, ws) = open_pipes os i n in
        let (code, ws') = create_threads os i ws in
        (all ≡ true) × (code ≡ 0) × (length ws' ≡ n) × Started i ws'
  unfolding open_pipes create_threads
  loops-Started i zero g = (refl, refl, refl, tt)
  loops-Started i (suc n) ((r, w, e), c, g) =
      let (all, code, len, st) = loops-Started (i + 1) n g in
      rw (open_pipes-suc i n e) (
        rw (create_threads-cons i (worker i r w false) (open_pipes os (i + 1) n).1 c)
          (all, code, ap suc len, (e, refl, refl, st)))

  init-fresh :
      (s : PoolState) (n : ℕ)
      → s.threads ≡ none
      → (open_pipes os 0 n).0 ≡ true
      → init os s n ≡ (
          let (code, ws) = create_threads os 0 (open_pipes os 0 n).1 in
          (pos code, record { count = n; threads = some ws }))
  unfolding init
  init-fresh s n fresh all = rw (fresh, all, init)

  -- A pool that is initialised is left alone.
  pub init-twice :
      (s : PoolState) (n : ℕ) {ws : List Worker} → s.threads ≡ some ws → init os s n ≡ (negsuc 0, s)
  unfolding init
  init-twice s n e = ground arith

  -- On a pool that is not initialised, if every pipe and every thread can be made, `init` gives 0, and
  -- each of the `n` workers has its own pipe and a running thread. So it is also where `setupThread`
  -- failed for a worker: nobody looks at its result.
  pub init-Started :
      (s : PoolState) (n : ℕ)
      → s.threads ≡ none
      → Grants 0 n
      → let (code, s') = init os s n in
        (code ≡ pos 0)
        × (s'.count ≡ n)
        × ((ws : List Worker) × (s'.threads ≡ some ws) × (length ws ≡ n) × Started 0 ws)
  init-Started s n fresh g =
      let (all, code, len, st) = loops-Started 0 n g in
      rw (init-fresh s n fresh all)
        (ap pos code, refl, ((create_threads os 0 (open_pipes os 0 n).1).1, refl, len, st))
