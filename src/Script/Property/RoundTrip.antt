-- ===== src/Script/Property/RoundTrip.antt =====
-- Writing a script of TCP steps down, and loading it by `init` of src/script.C.
use ptf.Prelude.{
  ℕ, ◌≡◌, refl, ap, ◌∙◌, Bool, true, false, none, some, List, [], ◌∷◌, ◌++◌, append-nil,
  append_assoc, map,
}
use ptf.Prelude.Int.{ℤ, pos}
use ptf.Http.Text.{Text}
use ptf.Text.{codes, text_eq, strcasecmp_eq, to_string}
use ptf.Steps.Tcp.RoundTrip.{
  TcpSpec, Readable, children_of, node_of, step_of, atoi_printed, init-node_of,
}
use ptf.Script.{Node, text_node, bare_node, step_node, Loading, loaded, build, finish}
use ptf.Script
use ptf.Script.Property.{
  AnyStep, tcp_step, address, find_address, property, tcp_property, init_property, read_nodes,
  load_script,
}

abbrev pub AllReadable : List TcpSpec → Type 0
AllReadable [] = Unit
AllReadable (t ∷ ts) = Readable t × AllReadable ts

abbrev pub any_step_of : TcpSpec → AnyStep
any_step_of t = tcp_step (step_of t)

-- "ip:port"
abbrev pub address_of : TcpSpec → Text
address_of t = t.ip ++ (codes ":" ++ to_string t.port)

find_address-children :
    (t : TcpSpec) (junk_port : ℤ)
    → Readable t
    → find_address (children_of t) none junk_port ≡ address t.ip (pos t.port)
unfolding find_address text_eq
find_address-children t junk_port p = rw (atoi_printed t.port p.2)

init_property-first :
    (junk : ℕ) (junk_port : ℤ) (t : TcpSpec)
    → Readable t
    → init_property junk junk_port (codes "TCP") (node_of t) []
      ≡ property (some (any_step_of t)) (address_of t)
unfolding init_property tcp_property strcasecmp_eq
init_property-first junk junk_port t p =
    rw (find_address-children t junk_port p, tcp_property) (rw (init-node_of junk t p))

init_property-later :
    (junk : ℕ) (junk_port : ℤ) (t : TcpSpec) (c : ℕ) (cs : Text)
    → Readable t
    → init_property junk junk_port (codes "TCP") (node_of t) (c ∷ cs)
      ≡ property (some (any_step_of t)) (c ∷ cs)
unfolding init_property tcp_property strcasecmp_eq
init_property-later junk junk_port t c cs p = rw (init-node_of junk t p, tcp_property)

read_nodes-later :
    (junk : ℕ) (junk_port : ℤ) (ts : List TcpSpec) (c : ℕ) (cs : Text)
    → AllReadable ts
    → read_nodes junk junk_port (map node_of ts) (c ∷ cs)
      ≡ (map (λ t. step_node (some (any_step_of t))) ts, c ∷ cs)
unfolding read_nodes
read_nodes-later junk junk_port [] c cs p = refl
read_nodes-later junk junk_port (t ∷ ts) c cs p =
    rw (init_property-later junk junk_port t c cs p.0, read_nodes)
      (rw (read_nodes-later junk junk_port ts c cs p.1))

build-steps :
    (has_tr : Bool) (ts : List TcpSpec) (so_far : List AnyStep)
    → build has_tr false (map (λ t. step_node (some (any_step_of t))) ts) so_far
      ≡ finish false (so_far ++ map any_step_of ts)
unfolding build
build-steps has_tr [] so_far = rw append-nil
build-steps has_tr (t ∷ ts) so_far =
    build-steps has_tr ts (so_far ++ (any_step_of t ∷ []))
    ∙ ap (finish false) (append_assoc so_far (any_step_of t ∷ []) (map any_step_of ts))

read_nodes-address :
    (junk : ℕ) (junk_port : ℤ) (ts : List TcpSpec) (ip rest : Text)
    → AllReadable ts
    → read_nodes junk junk_port (map node_of ts) (ip ++ (codes ":" ++ rest))
      ≡ (map (λ t. step_node (some (any_step_of t))) ts, ip ++ (codes ":" ++ rest))
read_nodes-address junk junk_port ts [] rest p = read_nodes-later junk junk_port ts b':' rest p
read_nodes-address junk junk_port ts (c ∷ cs) rest p =
    read_nodes-later junk junk_port ts c (cs ++ (codes ":" ++ rest)) p

read_nodes-nodes_of :
    (junk : ℕ) (junk_port : ℤ) (t : TcpSpec) (ts : List TcpSpec)
    → AllReadable (t ∷ ts)
    → read_nodes junk junk_port (map node_of (t ∷ ts)) []
      ≡ (map (λ u. step_node (some (any_step_of u))) (t ∷ ts), address_of t)
unfolding read_nodes
read_nodes-nodes_of junk junk_port t ts p =
    rw (init_property-first junk junk_port t p.0, read_nodes)
      (rw (read_nodes-address junk junk_port ts t.ip (to_string t.port) p.1))

init-steps :
    (tr : Bool) (t : TcpSpec) (ts : List TcpSpec)
    → Script.init tr (some (true, map (λ u. step_node (some (any_step_of u))) (t ∷ ts)))
      ≡ loaded (map any_step_of (t ∷ ts))
unfolding Script.init finish
init-steps tr t ts = build-steps tr (t ∷ ts) []

-- Writing one TCP step or more down as the nodes of a script, and loading it, gives those steps in
-- their order, and the address of the first: for all addresses, times and ports below 2^31, and
-- contents without a backslash.
pub load_script-nodes_of :
    (tr : Bool) (junk : ℕ) (junk_port : ℤ) (t : TcpSpec) (ts : List TcpSpec)
    → AllReadable (t ∷ ts)
    → load_script tr junk junk_port (some (true, map node_of (t ∷ ts)))
      ≡ (loaded (map any_step_of (t ∷ ts)), address_of t)
unfolding load_script
load_script-nodes_of tr junk junk_port t ts p =
    rw (read_nodes-nodes_of junk junk_port t ts p, load_script, init-steps tr t ts)
