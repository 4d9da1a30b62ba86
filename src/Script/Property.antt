-- ===== src/Script/Property.antt =====
-- `TScript::initProperty` of src/script.C on the nodes of a script's tree, and `init` on the whole tree. The
-- members of the script that they use are its `m_connStr` and `m_transaction`.
pub mod RoundTrip
use ptf.Prelude.{
  ℕ, zero, suc, ◌+◌, Bool, true, false, Option, none, some, List, [], ◌∷◌, ◌++◌, is_some,
  if◌then◌else◌,
}
use ptf.Prelude.Int.{ℤ, pos, negsuc}
use ptf.Http.Text.{Text}
use ptf.Text.{codes, text_eq, strcasecmp_eq, atoi, to_string}
use ptf.Xml.{Child, XmlNode, is_text, is_plain_text}
use ptf.Steps.Tcp.{TcpStep}
use ptf.Steps.Tcp
use ptf.Steps.Web.{WebStep}
use ptf.Steps.Web
use ptf.Script.{Node, text_node, bare_node, step_node, Loading, build}
use ptf.Script

-- The steps that `initProperty` makes.
pub data AnyStep : Type 0 where
  tcp_step : TcpStep → AnyStep
  web_step : WebStep → AnyStep

-- `stringstream << int`
abbrev pub print_int : ℤ → Text
print_int (pos n) = to_string n
print_int (negsuc n) = b'-' ∷ to_string (suc n)

-- What the loop over the children of a TCP node makes of the address: undefined, `return NULL`, or the ip
-- and the port.
pub data Address : Type 0 where
  undefined_address null_step : Address
  address : Text → ℤ → Address

-- The loop. `ip` is not assigned at first, nor is `port`, which then holds some number.
pub find_address : List Child → Option Text → ℤ → Address
find_address [] none port = undefined_address
find_address [] (some ip) port = address ip port
find_address (c ∷ cs) ip port =
    let rest = find_address cs ip port in
    if is_text c.kind
    then rest
    else if text_eq c.name (codes "ip")
    then elim c.content [ none ↦ null_step | some value ↦ find_address cs (some value) port ]
    else if text_eq c.name (codes "port")
    then elim c.content [ none ↦ null_step | some value ↦ find_address cs ip (atoi value) ]
    else rest

-- What `initProperty` comes to: undefined, or a step or NULL, with `m_connStr` after.
pub data Property : Type 0 where
  undefined_step : Property
  property : Option AnyStep → Text → Property

-- A TCP node: the address is looked for once, while `m_connStr` is empty.
pub tcp_property : (junk : ℕ) (junk_port : ℤ) → XmlNode → Text → Property
tcp_property junk junk_port node [] = elim (find_address node.children none junk_port) [
  | undefined_address ↦ undefined_step
  | null_step ↦ property none []
  | address ip port ↦ elim (Tcp.init junk node) [
    | none ↦ property none (ip ++ (codes ":" ++ print_int port))
    | some s ↦ property (some (tcp_step s)) (ip ++ (codes ":" ++ print_int port))
  ]
]
tcp_property junk junk_port node (c ∷ cs) = elim (Tcp.init junk node) [
  | none ↦ property none (c ∷ cs)
  | some s ↦ property (some (tcp_step s)) (c ∷ cs)
]

-- `initProperty` on a node with a protocol. `junk` is as in `decode`.
pub init_property : (junk : ℕ) (junk_port : ℤ) → Text → XmlNode → Text → Property
init_property junk junk_port protocol node conn_str =
    if strcasecmp_eq (codes "HTTP") protocol
    then elim (Web.init junk node) [
      | none ↦ property none conn_str
      | some s ↦ property (some (web_step s)) conn_str
    ]
    else if strcasecmp_eq (codes "TCP") protocol
    then tcp_property junk junk_port node conn_str
    else property none conn_str

-- The nodes as the loop of `init` meets them, up to the one where it stops, and `m_connStr` then.
pub read_nodes : (junk : ℕ) (junk_port : ℤ) → List XmlNode → Text → List (Node AnyStep) × Text
read_nodes junk junk_port [] conn_str = ([], conn_str)
read_nodes junk junk_port (n ∷ nodes) conn_str =
    let (later, after) = read_nodes junk junk_port nodes conn_str in
    if is_plain_text n.kind then (text_node ∷ later, after) else elim n.protocol [
      | none ↦ (bare_node ∷ [], conn_str)
      | some p ↦ elim (init_property junk junk_port p n conn_str) [
        | undefined_step ↦ (bare_node ∷ [], conn_str)
        | property none c ↦ (step_node none ∷ [], c)
        | property (some s) c ↦
            (let (later', after') = read_nodes junk junk_port nodes c in
              (step_node (some s) ∷ later', after'))
      ]
    ]

-- `init` on a tree, as in `Script.init`: how it ends, and `m_connStr`
pub load_script :
    (has_transaction : Bool) (junk : ℕ) (junk_port : ℤ)
    → Option (Bool × List XmlNode)
    → Loading AnyStep × Text
load_script tr junk junk_port none = (Script.init tr none, [])
load_script tr junk junk_port (some (named_root, nodes)) =
    let (ns, conn_str) = read_nodes junk junk_port nodes [] in
    (Script.init tr (some (named_root, ns)), (if named_root then conn_str else []))
