-- ===== src/Manager/Connect.antt =====
-- How the manager gives the workers their connections: `createSocketPool` of src/manager.C, the pool's
-- constructor in src/socketpool.C, `initConnect` and `initHttpConnect` of src/mptthreadpool.C, and the loops
-- that call them.
pub mod Filled
pub mod Sockets
pub mod Opened
use ptf.Prelude.{
  ℕ, zero, suc, ◌+◌, ◌==◌, Bool, true, false, Option, none, some, List, [], ◌∷◌, ◌++◌,
  if◌then◌else◌,
}
use ptf.Http.Text.{Text}
use ptf.Text.{codes, text_eq}
use ptf.Socket.{SocketPool, get_socket}
use ptf.Pool.Task.{ConnectionMap}

-- `csocket_map`
abbrev pub PoolMap : Type 0
PoolMap = List (Text × SocketPool)

pub find_pool : Text → PoolMap → Option SocketPool
find_pool k [] = none
find_pool k ((j, q) ∷ ps) = if text_eq j k then some q else find_pool k ps

pub put_pool : Text → SocketPool → PoolMap → PoolMap
put_pool k q [] = (k, q) ∷ []
put_pool k q ((j, old) ∷ ps) =
    let rest = put_pool k q ps in if text_eq j k then (j, q) ∷ ps else (j, old) ∷ rest

-- `cps_map[thread] = connection`
pub put : ℕ → ℕ → ConnectionMap → ConnectionMap
put k c [] = (k, c) ∷ []
put k c ((j, d) ∷ m) = let rest = put k c m in if j == k then (j, c) ∷ m else (j, d) ∷ rest

-- The loop of `CSocketPool::CSocketPool`: `count` sockets, the new one of round `i` at `address i`.
pub fill : (address : ℕ → ℕ) → (i count : ℕ) → SocketPool → SocketPool
fill address i zero q = q
fill address i (suc n) q = fill address (i + 1) n (q ++ (address i ∷ []))

abbrev pub pool_address : Text
pool_address = codes "127.0.0.1:8000"

-- `createSocketPool`
pub create_socket_pool : (ℕ → ℕ) → PoolMap → PoolMap
unfolding fill put_pool
create_socket_pool address ps = put_pool pool_address (fill address 0 20 []) ps

-- `initConnect` on the worker of that thread
pub init_connect : (thread : ℕ) → Text → (connection : ℕ) → ConnectionMap → ConnectionMap
init_connect thread [] c m = m
init_connect thread (ch ∷ cs) c m = put thread c m

-- `csocket_map[connStr]->getSocket()`, if the map has entries, else NULL. `none` is undefined: there is no
-- pool of that name, or it has no socket left.
pub next_socket : Text → PoolMap → Option (ℕ × PoolMap)
unfolding find_pool get_socket put_pool
next_socket conn_str [] = some (0, [])
next_socket conn_str (p ∷ ps) = elim (find_pool conn_str (p ∷ ps)) [
  | none ↦ none
  | some pool ↦ elim (get_socket pool) [
    | none ↦ none
    | some (c, q) ↦ some (c, put_pool conn_str q (p ∷ ps))
  ]
]

-- The loop over the workers for a TCP script; the list has their threads.
pub connect_tcp : Text → List ℕ → PoolMap → ConnectionMap → Option (PoolMap × ConnectionMap)
unfolding next_socket init_connect
connect_tcp conn_str [] ps m = some (ps, m)
connect_tcp conn_str (thread ∷ threads) ps m = elim (next_socket conn_str ps) [
  | none ↦ none
  | some (c, ps') ↦
      connect_tcp conn_str threads ps' (if c == 0 then m else init_connect thread conn_str c m)
]

-- The loop over the workers for an HTTP script: a new `CHttpConnection` each, that of round `i` at
-- `address i`.
unfoldable pub connect_http : (address : ℕ → ℕ) → (i : ℕ) → List ℕ → ConnectionMap → ConnectionMap
unfolding put
connect_http address i [] m = m
connect_http address i (thread ∷ threads) m =
    connect_http address (i + 1) threads (put thread (address i) m)
