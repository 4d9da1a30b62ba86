-- ===== src/Pool/Task/Binding.antt =====
-- Which connection the transactions of a task are put on, in src/mptthreadpool.C.
use ptf.Prelude.{ℕ, zero, suc, ◌≡◌, refl, ◌≢◌, some, [], ◌∷◌, replicate, ne→==}
use ptf.Pool.Task.{
  Protocol, tcp, http, other_protocol, ConnectionMap, find, at, Bound, unbound, on_socket, on_http,
  bind, launch,
}

-- What a connection `c` means to a transaction of a protocol.
abbrev pub bound_to : Protocol → ℕ → Bound
bound_to tcp c = on_socket c
bound_to http c = on_http c
bound_to other_protocol c = unbound

find-nil : (thread : ℕ) {c : ℕ} → find thread [] ≢ some c
unfolding find
find-nil thread e = cc

pub at-found : (thread c : ℕ) (m : ConnectionMap) → find thread m ≡ some c → at thread m ≡ (c, m)
unfolding at
at-found thread c m e = rw (e, at)

bind-found :
    (p : Protocol) (thread c : ℕ) (m : ConnectionMap)
    → find thread m ≡ some c
    → c ≢ 0
    → bind p thread m ≡ (bound_to p c, m)
unfolding bind
bind-found p thread c [] e ne = absurd (find-nil thread e)
bind-found tcp thread c (x ∷ m) e ne = rw (e, at, ne→== c 0 ne)
bind-found http thread c (x ∷ m) e ne = rw (e, at, ne→== c 0 ne)
bind-found other_protocol thread c (x ∷ m) e ne = refl

-- On a thread with a connection every transaction of the task is put on that one connection, and the
-- map of connections stays as it is.
pub launch-bound :
    (n : ℕ) (p : Protocol) (script thread c : ℕ) (m : ConnectionMap)
    → find thread m ≡ some c
    → c ≢ 0
    → launch n p script thread m
      ≡ (replicate n (record { script = script; bound = bound_to p c }), m)
unfolding launch
launch-bound zero p script thread c m e ne = refl
launch-bound (suc n) p script thread c m e ne =
    rw (bind-found p thread c m e ne, launch-bound n p script thread c m e ne)
