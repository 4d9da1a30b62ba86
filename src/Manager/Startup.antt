-- ===== src/Manager/Startup.antt =====
-- How the program starts: `main` of src/main.C, and `init` and `startHttpServer` of src/manager.C. The
-- configuration file, libevent's binding of a socket and the operating system are parameters.
pub mod Serving
mod Tests
use ptf.Prelude.{
  ℕ, zero, suc, Bool, true, false, not, ◌&&◌, ◌||◌, ◌==◌, Option, none, some, List, [], ◌∷◌,
  if◌then◌else◌,
}
use ptf.Prelude.Int.{ℤ, pos, negsuc}
use ptf.Http.Text.{Text}
use ptf.Text.{codes}
use ptf.Config.{Entries, Config, new_config, get_manager_port}
use ptf.Config
use ptf.Pool.Setup.{Os, Worker, PoolState}
use ptf.Pool.Setup

-- `TManager` at the start: whether `m_base` and `m_httpd` are there, whether requests are answered by
-- `processHttpReq`, and the pool.
pub record Server : Type 0 where
  pub base : Bool
  pub httpd : Bool
  pub callback : Bool
  pub pool : PoolState

-- `TManager::TManager`, with what `event_base_new` gives
abbrev pub new_server : Bool → Server
new_server base = record {
  base = base;
  httpd = false;
  callback = false;
  pool = record { count = 0; threads = none };
}

-- `startHttpServer`; `bind` is whether `evhttp_bind_socket` gives 0 for an address and a port.
pub start_http_server : (bind : Text → ℕ → Bool) → Config → Server → ℤ × Server
start_http_server bind c s =
    if bind c.listen_addr (get_manager_port c)
    then (pos 0, record s { httpd = true; callback = true })
    else (negsuc 0, record s { httpd = true; callback = false })

-- Whether a thread runs for a worker without an event base, which `workerFunc` uses all the same. NULL is what makes
-- `setupThread` give -2.
abbrev pub is_lost : Worker → Bool
is_lost w = elim w.set_up [ pos _ ↦ false | negsuc k ↦ w.running && (k == 1) ]

abbrev pub any_lost : List Worker → Bool
any_lost [] = false
any_lost (w ∷ ws) = is_lost w || any_lost ws

abbrev pub survives : PoolState → Bool
survives s = elim s.threads [ none ↦ true | some ws ↦ not (any_lost ws) ]

-- The rest of `TManager::init`, from the result of `startHttpServer` on. A number of workers that is
-- negative, which makes `new` throw, gives `none`, and so does a worker that runs without an event base.
pub init_pool : Os → ℤ → ℤ × Server → Option (ℤ × Server)
init_pool os workers (negsuc k, s) = some (negsuc k, s)
init_pool os workers (pos (suc k), s) = some (pos (suc k), s)
init_pool os (negsuc n) (pos zero, s) = none
init_pool os (pos n) (pos zero, s) =
    let (ret, pool) = Setup.init os s.pool n in
    if survives pool then some (ret, record s { pool = pool }) else none

-- `TManager::init`
pub init_server : Os → (bind : Text → ℕ → Bool) → Config → Server → Option (ℤ × Server)
unfolding start_http_server init_pool
init_server os bind c s = init_pool os c.n_worker (start_http_server bind c s)

-- What `main` comes to: `exit` with a code, or `loop`, which uses `m_base` and has no defined behaviour where it
-- is NULL.
pub data Ending : Type 0 where
  exited : ℕ → Ending
  looping : Config → Server → Ending

abbrev pub ending_of : Config → Option (ℤ × Server) → Option Ending
ending_of c none = none
ending_of c (some (negsuc k, s)) = some (exited 1)
ending_of c (some (pos (suc k), s)) = some (exited 1)
ending_of c (some (pos zero, s)) = if s.base then some (looping c s) else none

-- `main`: the result of reading "ptf.conf" is not looked at. `junk` is as in `new_config`; `none` is
-- undefined behaviour or an exception.
pub main :
    Os
    → (bind : Text → ℕ → Bool) → (read : Text → Option Entries)
    → (home : Text) (junk : ℤ) (base : Bool) → Option Ending
unfolding init_server
main os bind read home junk base =
    elim (Config.init read home (some (codes "ptf.conf")) (new_config junk)) [
      | none ↦ none
      | some (done, c) ↦ ending_of c (init_server os bind c (new_server base))
    ]
