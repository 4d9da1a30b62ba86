-- ===== src/Steps/Tcp/RoundTrip.antt =====
-- Writing a TCP step down as a node, and `TTCPStep::init` of src/tcpstep.C on that node.
use ptf.Prelude.{
  ℕ, ◌^◌, ◌<◌, ◌≡◌, refl, ap, ◌∙◌, sym, Bool, true, false, none, some, List, [], ◌∷◌, append-nil,
  if◌then◌else◌,
}
use ptf.Prelude.Int.{pos}
use ptf.Http.Text.{Text}
use ptf.Text.{codes, text_eq, atoi, to_string}
use ptf.Text.Number.{atoi-to_string}
use ptf.Xml.{element_node, cdata_node, Child, XmlNode}
use ptf.Step.{send, recv}
use ptf.Step.Decode.{Plain, decode-Plain}
use ptf.Steps.{ProtocolType, StepBase, new_step, step_type, read_data, init_base}
use ptf.Steps.Tcp.{TcpStep, new_tcp_step, read_field, read_fields, make_event, init}

-- What a script says of a TCP step; `sends` tells "send" from "recv".
pub record TcpSpec : Type 0 where
  pub sends : Bool
  pub wait : ℕ
  pub ip : Text
  pub port : ℕ
  pub content : List ℕ

abbrev pub field : Text → Text → Child
field name value = record { kind = element_node; name = name; content = some value }

-- The children of its node, in the order of the scripts.
abbrev pub children_of : TcpSpec → List Child
children_of t =
    field (codes "wait") (to_string t.wait)
    ∷ field (codes "ip") t.ip
    ∷ field (codes "port") (to_string t.port)
    ∷ record { kind = cdata_node; name = []; content = some t.content }
    ∷ []

abbrev pub node_of : TcpSpec → XmlNode
node_of t = record {
  kind = element_node;
  name = if t.sends then codes "send" else codes "recv";
  protocol = some (codes "TCP");
  children = children_of t;
}

-- The step that is meant.
abbrev pub step_of : TcpSpec → TcpStep
step_of t = record {
  base = record {
    protocol = ProtocolType.tcp;
    kind = if t.sends then send else recv;
    timer = pos t.wait;
    content = some t.content;
  };
  port = pos t.port;
  ip = t.ip;
  event_tx = some (if t.sends then false else true);
}

-- The content holds no backslash, and the numbers fit into an `int`.
abbrev pub Readable : TcpSpec → Type 0
Readable t = Plain t.content × (t.wait < 2 ^ 31) × (t.port < 2 ^ 31)

pub atoi_printed : (n : ℕ) → n < 2 ^ 31 → atoi (to_string n) ≡ pos n
atoi_printed n h = ap atoi (sym (append-nil (to_string n))) ∙ atoi-to_string n [] h tt

read_data-children :
    (junk : ℕ) (t : TcpSpec) (b : StepBase)
    → Plain t.content
    → read_data junk (children_of t) b ≡ some (record b { content = some t.content })
unfolding read_data
read_data-children junk t b p =
    ap (λ k. some (record b { content = some k })) (decode-Plain junk t.content p)

read_fields-children :
    (t : TcpSpec) (s : TcpStep)
    → Readable t
    → read_fields (children_of t) s
      ≡ some
          (record s { base = record s.base { timer = pos t.wait }; ip = t.ip; port = pos t.port })
unfolding read_fields read_field text_eq
read_fields-children t s p = rw (atoi_printed t.wait p.1, atoi_printed t.port p.2)

step_type-node_of :
    (sends : Bool)
    → step_type (if sends then codes "send" else codes "recv") ≡ some (if sends then send else recv)
unfolding step_type
step_type-node_of true = refl
step_type-node_of false = refl

init_base-node_of :
    (junk : ℕ) (t : TcpSpec)
    → Plain t.content
    → init_base junk (node_of t) new_step
      ≡ some (record new_step { kind = if t.sends then send else recv; content = some t.content })
unfolding init_base
init_base-node_of junk t p =
    rw (step_type-node_of t.sends, init_base)
      (read_data-children junk t (record new_step { kind = if t.sends then send else recv }) p)

-- Whatever the addresses, the times and ports that an `int` can hold, and the contents without a backslash: the node that is written for a TCP
-- step is read as that step.
pub init-node_of : (junk : ℕ) (t : TcpSpec) → Readable t → init junk (node_of t) ≡ some (step_of t)
unfolding init
init-node_of junk t p =
    rw (init_base-node_of junk t p.0, init)
      (rw (read_fields-children t (record new_tcp_step { base = base_of t }) p)
        (make_event-kind t.sends))
  where
    base_of : TcpSpec → StepBase
    base_of t = record new_step {
      protocol = ProtocolType.tcp;
      kind = if t.sends then send else recv;
      content = some t.content;
    }

    make_event-kind :
        (b : Bool)
        → some (
            make_event (record {
              base = record {
                protocol = ProtocolType.tcp;
                kind = if b then send else recv;
                timer = pos t.wait;
                content = some t.content;
              };
              port = pos t.port;
              ip = t.ip;
              event_tx = none;
            }))
          ≡ some (record (step_of t) {
            base = record (step_of t).base { kind = if b then send else recv };
            event_tx = some (if b then false else true);
          })
    make_event-kind true = refl
    make_event-kind false = refl
