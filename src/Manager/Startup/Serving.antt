-- ===== src/Manager/Startup/Serving.antt =====
-- When `main` of src/main.C comes to serve requests, and with which workers.
use ptf.Prelude.{ℕ, ◌≡◌, Bool, true, false, Option, some}
use ptf.Prelude.Int.{ℤ, negsuc}
use ptf.Http.Text.{Text}
use ptf.Text.{codes}
use ptf.Config.{Entries, Config, new_config, get_manager_port}
use ptf.Config
use ptf.Pool.Setup.{Os, PoolState}
use ptf.Pool.Setup
use ptf.Manager.Startup.{
  Server, new_server, start_http_server, init_server, exited, ending_of, main, init_pool,
}

module _ (os : Os) (bind : Text → ℕ → Bool) where
  init_server-refused :
      (c : Config) (base : Bool)
      → bind c.listen_addr (get_manager_port c) ≡ false
      → init_server os bind c (new_server base)
        ≡ some (negsuc 0, record (new_server base) { httpd = true })
  unfolding init_server start_http_server init_pool
  init_server-refused c base refused = rw refused

  module _ (read : Text → Option Entries) (home : Text) (junk : ℤ) (base done : Bool) (c : Config)
      (configured : Config.init read home (some (codes "ptf.conf")) (new_config junk)
        ≡ some (done, c)) where
    main-ending :
        {r : Option (ℤ × Server)}
        → init_server os bind c (new_server base) ≡ r
        → main os bind read home junk base ≡ ending_of c r
    unfolding main
    main-ending e = rw (configured, main, e)

    -- If they cannot be bound, it exits with 1.
    pub main-refused :
        bind c.listen_addr (get_manager_port c) ≡ false
        → main os bind read home junk base ≡ some (exited 1)
    main-refused refused = main-ending (init_server-refused c base refused)
