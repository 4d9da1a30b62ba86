-- ===== src/Manager/Connect/Sockets.antt =====
-- Which socket each worker gets for a TCP script, and the scripts for which `processHttpReq` of
-- src/manager.C goes wrong.
use ptf.Prelude.{
  ℕ, zero, suc, ◌≤◌, ◌<◌, ◌≡◌, refl, sym, ◌∙◌, ap, ◌≢◌, ◌⊎◌, true, false, Option, none, some, List,
  [], ◌∷◌, length, get_elem?, Bool-cases, inl, inr, arith, ne→==,
}
use ptf.Http.Text.{Text}
use ptf.Text.{text_eq}
use ptf.Text.Compare.{text_eq_self, eq_of_text_eq}
use ptf.Socket.{SocketPool}
use ptf.Pool.Task.{ConnectionMap, find}
use ptf.Manager.Connect.Filled.{NoNull, fill-NoNull}
use ptf.Manager.Connect.{
  PoolMap, find_pool, put_pool, put, fill, pool_address, create_socket_pool, init_connect,
  next_socket, connect_tcp,
}

find-put_self : (k c : ℕ) (m : ConnectionMap) → find k (put k c m) ≡ some c
unfolding find put
find-put_self k c [] = ground arith
find-put_self k c ((j, d) ∷ m) = ground (arith, find-put_self k c m)

find-put_ne : (k j c : ℕ) (m : ConnectionMap) → k ≢ j → find k (put j c m) ≡ find k m
unfolding find put
find-put_ne k j c [] h = ground (arith, h)
find-put_ne k j c ((i, d) ∷ m) h = ground (arith, h, find-put_ne k j c m h)

find_pool-put_pool :
    (k : Text) (q : SocketPool) (ps : PoolMap) → find_pool k (put_pool k q ps) ≡ some q
unfolding find_pool put_pool
find_pool-put_pool k q [] = rw (text_eq_self k, find_pool)
find_pool-put_pool k q ((j, old) ∷ ps) = elim (Bool-cases (text_eq j k)) [
  | inl e ↦ rw (e, find_pool, e)
  | inr e ↦ rw (e, find_pool, e) (find_pool-put_pool k q ps)
]

next_socket-found :
    (s : Text) (c : ℕ) (q : SocketPool) (ps : PoolMap)
    → find_pool s ps ≡ some (c ∷ q)
    → next_socket s ps ≡ some (c, put_pool s q ps)
unfolding next_socket find_pool
next_socket-found s c q [] e = absurd cc
next_socket-found s c q (p ∷ ps) e = rw (e, next_socket)

next_socket-empty : (s : Text) (ps : PoolMap) → find_pool s ps ≡ some [] → next_socket s ps ≡ none
unfolding next_socket find_pool
next_socket-empty s [] e = absurd cc
next_socket-empty s (p ∷ ps) e = rw (e, next_socket)

-- `thread` is none of the threads.
abbrev pub Fresh : ℕ → List ℕ → Type 0
Fresh thread [] = Unit
Fresh thread (t ∷ ts) = (thread ≢ t) × Fresh thread ts

-- No thread is there twice.
abbrev pub Distinct : List ℕ → Type 0
Distinct [] = Unit
Distinct (t ∷ ts) = Fresh t ts × Distinct ts

-- What `connect_tcp` makes of a map, with a pool of the sockets `q`.
pub record Connected (threads q : List ℕ) (m m' : ConnectionMap) : Type 0 where
  pub each : (k : ℕ) {t : ℕ} → get_elem? threads k ≡ some t → find t m' ≡ get_elem? q k
  pub others : (t : ℕ) → Fresh t threads → find t m' ≡ find t m

abbrev value : ℕ → Option ℕ → ℕ
value d none = d
value d (some x) = x

Connected-cons :
    (t c : ℕ) (ts q : List ℕ) (m m' : ConnectionMap)
    → Fresh t ts
    → Connected ts q (put t c m) m'
    → Connected (t ∷ ts) (c ∷ q) m m'
Connected-cons t c ts q m m' fresh v = record {
  each = λ k e. each k e;
  others = λ u h. v.others u h.1 ∙ find-put_ne u t c m h.0;
}
  where
    each : (k : ℕ) {u : ℕ} → get_elem? (t ∷ ts) k ≡ some u → find u m' ≡ get_elem? (c ∷ q) k
    each zero e = ap (λ o. find (value t o) m') (sym e) ∙ v.others t fresh ∙ find-put_self t c m
    each (suc k) e = v.each k e

connect_tcp-next :
    (ch : ℕ) (cs : Text) (t c : ℕ) (ts : List ℕ) (ps ps' : PoolMap) (m : ConnectionMap)
    → next_socket (ch ∷ cs) ps ≡ some (c, ps')
    → c ≢ 0
    → connect_tcp (ch ∷ cs) (t ∷ ts) ps m ≡ connect_tcp (ch ∷ cs) ts ps' (put t c m)
unfolding connect_tcp init_connect
connect_tcp-next ch cs t c ts ps ps' m e ne = rw (e, connect_tcp, ne→== c 0 ne)

pub connect_tcp-pool :
    (ch : ℕ) (cs : Text) (threads q : List ℕ) (ps : PoolMap) (m : ConnectionMap)
    → find_pool (ch ∷ cs) ps ≡ some q
    → length threads ≤ length q
    → NoNull q
    → Distinct threads
    → (ps' : PoolMap) × (m' : ConnectionMap) × (connect_tcp (ch ∷ cs) threads ps m ≡ some (ps', m'))
      × Connected threads q m m'
unfolding connect_tcp init_connect
connect_tcp-pool ch cs [] q ps m e enough nn d =
    (ps, m, refl, record { each = λ k e'. absurd cc; others = λ t h. refl })
connect_tcp-pool ch cs (t ∷ ts) [] ps m e enough nn d = absurd (omega (arith, enough))
connect_tcp-pool ch cs (t ∷ ts) (c ∷ q) ps m e enough nn d =
    let (ps', m', result, v) =
      connect_tcp-pool ch cs ts q (put_pool (ch ∷ cs) q ps) (put t c m)
        (find_pool-put_pool (ch ∷ cs) q ps) (omega (arith, enough)) nn.1 d.1 in
    (
      ps',
      m',
      connect_tcp-next ch cs t c ts ps (put_pool (ch ∷ cs) q ps) m
            (next_socket-found (ch ∷ cs) c q ps e) nn.0
          ∙ result,
      Connected-cons t c ts q m m' d.0 v,
    )

-- A pool with fewer sockets than there are workers leaves `front` of an empty queue to be called.
pub connect_tcp-short :
    (s : Text) (threads q : List ℕ) (ps : PoolMap) (m : ConnectionMap)
    → find_pool s ps ≡ some q
    → length q < length threads
    → connect_tcp s threads ps m ≡ none
unfolding connect_tcp
connect_tcp-short s [] q ps m e short = absurd (omega (arith, short))
connect_tcp-short s (t ∷ ts) [] ps m e short = rw (next_socket-empty s ps e, connect_tcp)
connect_tcp-short s (t ∷ ts) (c ∷ q) ps m e short =
    rw (next_socket-found s c q ps e, connect_tcp)
      (connect_tcp-short s ts q (put_pool s q ps) _ (find_pool-put_pool s q ps)
        (omega (arith, short)))

-- The pool that the manager makes serves up to twenty workers: with its address in the script, and no thread
-- twice, each worker gets the socket of its number, and the other threads keep what they had.
pub connect_tcp-create_socket_pool :
    (address : ℕ → ℕ) (threads : List ℕ) (m : ConnectionMap)
    → length threads ≤ 20
    → Distinct threads
    → ((i : ℕ) → address i ≢ 0)
    → (ps' : PoolMap) × (m' : ConnectionMap) × (connect_tcp pool_address threads
          (create_socket_pool address [])
          m
        ≡ some (ps', m'))
      × Connected threads (fill address 0 20 []) m m'
unfolding create_socket_pool put_pool find_pool text_eq fill
connect_tcp-create_socket_pool address threads m few d nn =
    connect_tcp-pool _ _ threads (fill address 0 20 []) (create_socket_pool address []) m refl few
      (fill-NoNull address 0 20 [] nn tt) d

connect_tcp-unknown :
    (address : ℕ → ℕ) (s : Text) (t : ℕ) (ts : List ℕ) (m : ConnectionMap)
    → text_eq pool_address s ≡ false
    → connect_tcp s (t ∷ ts) (create_socket_pool address []) m ≡ none
unfolding create_socket_pool put_pool find_pool connect_tcp next_socket
connect_tcp-unknown address s t ts m e = rw (e, connect_tcp)

find_pool-create_socket_pool :
    (address : ℕ → ℕ) (s : Text)
    → text_eq pool_address s ≡ true
    → find_pool s (create_socket_pool address []) ≡ some (fill address 0 20 [])
unfolding create_socket_pool put_pool find_pool
find_pool-create_socket_pool address s e = rw (e, find_pool)

-- On a fresh map of pools, with a worker at least: if the script has another address than
-- 127.0.0.1:8000, or there are more than twenty workers, the connecting of the workers runs into
-- undefined behaviour.
pub connect_tcp-undefined :
    (address : ℕ → ℕ) (s : Text) (t : ℕ) (ts : List ℕ) (m : ConnectionMap)
    → (s ≢ pool_address) ⊎ (20 ≤ length ts)
    → connect_tcp s (t ∷ ts) (create_socket_pool address []) m ≡ none
unfolding fill
connect_tcp-undefined address s t ts m h = elim (Bool-cases (text_eq pool_address s)) [
  | inr e ↦ connect_tcp-unknown address s t ts m e
  | inl e ↦ elim h [
    | inl ne ↦ absurd (ne (sym (eq_of_text_eq pool_address s e)))
    | inr many ↦
        connect_tcp-short s (t ∷ ts) (fill address 0 20 []) (create_socket_pool address []) m
          (find_pool-create_socket_pool address s e) (omega (arith, many))
  ]
]
