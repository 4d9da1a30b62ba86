-- ===== src/Manager/Connect/Opened.antt =====
-- What stands behind the addresses in the pools of src/manager.C: the connections that src/socketpool.C made.
use ptf.Prelude.{
  ℕ, zero, suc, ◌+◌, ◌≡◌, refl, sym, ◌∙◌, Option, some, List, [], ◌∷◌, ◌++◌, append-nil,
  append_assoc, map, arith, upto,
}
use ptf.Http.Text.{Text}
use ptf.Text.{codes, to_string}
use ptf.Socket.Opening.{new_pool}
use ptf.Socket.Opening.Filled.{opened_at, new_pool-to_string}
use ptf.Manager.Connect.{fill, pool_address, put_pool, create_socket_pool}

fill-upto :
    (address : ℕ → ℕ) (i count : ℕ) (q : List ℕ)
    → fill address i count q ≡ q ++ map address (upto i count)
unfolding fill
fill-upto address i zero q = sym (append-nil q)
fill-upto address i (suc n) q =
    fill-upto address (i + 1) n (q ++ (address i ∷ []))
    ∙ append_assoc q (address i ∷ []) (map address (upto (i + 1) n))

-- `createSocketPool` on a map without pools puts one pool there, under 127.0.0.1:8000, of twenty sockets in the
-- order of their making, and the socket pool of that address connects each of them to port 8000 of
-- 127.0.0.1, if inet_pton reads that.
pub create_socket_pool-Opened :
    (inet_pton : Text → Option ℕ) (address : ℕ → ℕ) (host : ℕ)
    → inet_pton (codes "127.0.0.1") ≡ some host
    → (new_pool inet_pton address 20 pool_address
        ≡ some (map (opened_at address host 8000) (upto 0 20)))
      × (create_socket_pool address []
          ≡ (pool_address, map (λ o. o.address) (map (opened_at address host 8000) (upto 0 20)))
            ∷ [])
unfolding create_socket_pool put_pool fill to_string
create_socket_pool-Opened inet_pton address host e = (
  (new_pool-to_string inet_pton address 20 (codes "127.0.0.1") 8000 (λ e. cc (e))
        (refl, (refl, (refl, (refl, (refl, (refl, (refl, (refl, (refl, tt))))))))) (omega arith)
        (omega arith)).0
      host e,
  refl,
)
