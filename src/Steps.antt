-- ===== src/Steps.antt =====
-- The kinds of step: what `init` reads from a node of the script, and what `send` and `recv` do. This
-- file has `TStep::init` of src/step.C, which the steps start with, and what they share.
pub mod Tcp
pub mod Web
pub mod Db
mod Tests
use ptf.Prelude.{
  ℕ, ◌+◌, Bool, true, false, ◌||◌, Option, none, some, List, [], ◌∷◌, is_some, if◌then◌else◌,
}
use ptf.Prelude.Int.{ℤ, pos}
use ptf.Http.Text.{Text}
use ptf.Text.{codes, text_eq}
use ptf.Xml.{NodeType, Child, XmlNode, is_cdata}
use ptf.Step.{StepType, send, recv, check, decode}

-- `TProtocolType`
pub data ProtocolType : Type 0 where
  unknown http tcp udp ftp rmdb : ProtocolType

-- The fields of `TStep` that `init` sets. `content` is `m_data.content`.
pub record StepBase : Type 0 where
  pub protocol : ProtocolType
  pub kind : StepType
  pub timer : ℤ
  pub content : Option (List ℕ)

-- `TStep::TStep`
abbrev pub new_step : StepBase
new_step = record { protocol = unknown; kind = send; timer = pos 0; content = none }

-- The type that a node's name stands for.
pub step_type : Text → Option StepType
unfolding text_eq
step_type name =
    if text_eq name (codes "send")
    then some send
    else if text_eq name (codes "recv")
    then some recv
    else none

-- The loop of `TStep::init`: the first CDATA section among the children. `none` is its failure.
pub read_data : ℕ → List Child → StepBase → Option StepBase
unfolding decode
read_data junk [] b = some b
read_data junk (c ∷ cs) b =
    let rest = read_data junk cs b in
    if is_cdata c.kind
    then elim c.content [
      | none ↦ none
      | some value ↦ some (record b { content = some (decode junk value) })
    ]
    else rest

-- `TStep::init`; `junk` is as in `decode`.
pub init_base : ℕ → XmlNode → StepBase → Option StepBase
unfolding step_type read_data
init_base junk node b = elim (step_type node.name) [
  | none ↦ none
  | some kind ↦ read_data junk node.children (record b { kind = kind })
]
