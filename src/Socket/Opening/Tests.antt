-- ===== src/Socket/Opening/Tests.antt =====
-- Pools of src/socketpool.C, made for concrete addresses, and connections that are deleted again.
use ptf.Prelude.{ℕ, Option, if◌then◌else◌, true, upto, ◌≡◌, refl, none, some, ◌∷◌, ◌++◌, map, arith}
use ptf.Prelude.Pointer.{live}
use ptf.Http.Text.{Text}
use ptf.Text.{codes, text_eq, to_string}
use ptf.Socket.Opening.{
  new_socket, set_timeout_queue, delete_socket, new_http, delete_http, new_pool, parse_address,
  strtok,
}
use ptf.Socket.Opening.Filled.{opened_at, new_pool-to_string}

-- Of two texts, the second is no address.
abbrev inet_pton : Text → Option ℕ
inet_pton t = if text_eq t (codes "127.0.0.1") then some 2130706433 else none

new_pool-to_string_example :
    (((host : ℕ)
        → inet_pton (codes "localhost") ≡ some host
        → new_pool inet_pton (λ i. i) 20 (codes "localhost" ++ (b':' ∷ to_string 8000))
          ≡ some (map (opened_at (λ i. i) host 8000) (upto 0 20)))
      × (inet_pton (codes "localhost") ≡ none
          → new_pool inet_pton (λ i. i) 20 (codes "localhost" ++ (b':' ∷ to_string 8000))
            ≡ some (map (opened_at (λ i. i) 0 8000) (upto 0 20))))
unfolding to_string
new_pool-to_string_example =
    new_pool-to_string inet_pton (λ i. i) 20 (codes "localhost") 8000 (λ e. cc (e))
      (refl, (refl, (refl, (refl, (refl, (refl, (refl, (refl, (refl, tt))))))))) (omega arith)
      (omega arith)

no_port : parse_address (codes "127.0.0.1") ≡ none
unfolding parse_address strtok
no_port = refl

-- A socket that `setTimeoutQueue` was called on still has an unassigned `ev_cmd`.
socket_garbage : delete_socket (set_timeout_queue live (new_socket true)) ≡ none
unfolding delete_socket
socket_garbage = refl

http_garbage : delete_http new_http ≡ none
unfolding delete_http
http_garbage = refl
