-- ===== src/Steps/Tcp.antt =====
-- src/tcpstep.h, src/tcpstep.C: a step that sends a message over the connection of its thread, or waits
-- for a response of the right length.
pub mod RoundTrip
pub mod Exchange
pub mod Dialogue
mod Tests
use ptf.Prelude.{
  ℕ, ◌+◌, ◌==◌, Bool, true, false, Option, none, some, List, [], ◌∷◌, ◌++◌, length, if◌then◌else◌,
}
use ptf.Prelude.Int.{ℤ, pos, negsuc, pos_part, ◌+ℤ◌, ◌==ℤ◌}
use ptf.Event.{EventType}
use ptf.Http.Text.{Text}
use ptf.Text.{codes, text_eq, atoi}
use ptf.Xml.{Child, XmlNode, is_text}
use ptf.Step.{StepType, send, recv, check, Handlers}
use ptf.Transaction.{StepResult, errend, succ}
use ptf.Socket.{TcpEvent, c_string}
use ptf.Pool.Task.{ConnectionMap, at}
use ptf.Timeout.{TimeoutNode, write, TimeoutQueue, en_tqueue}
use ptf.Steps.{ProtocolType, StepBase, new_step, init_base}

-- `TTCPStep`
pub record TcpStep : Type 0 where
  pub base : StepBase
  pub port : ℤ
  pub ip : Text
  -- `m_tmptEvent`: the direction of the event that `init` makes; true is `ED_TX`.
  pub event_tx : Option Bool

-- `TTCPStep::TTCPStep`
abbrev pub new_tcp_step : TcpStep
new_tcp_step = record { base = new_step; port = pos 0; ip = []; event_tx = none }

-- A child that is not a text. `none` is `return false`.
pub read_field : Child → TcpStep → Option TcpStep
read_field c s =
    if text_eq c.name (codes "wait")
    then elim c.content [
      | none ↦ some s
      | some value ↦ some (record s { base = record s.base { timer = atoi value } })
    ]
    else if text_eq c.name (codes "ip")
    then elim c.content [ none ↦ none | some value ↦ some (record s { ip = value }) ]
    else if text_eq c.name (codes "port")
    then elim c.content [ none ↦ none | some value ↦ some (record s { port = atoi value }) ]
    else some s

-- The loop of `init`
pub read_fields : List Child → TcpStep → Option TcpStep
read_fields [] s = some s
read_fields (c ∷ cs) s =
    let rest = read_fields cs s in
    if is_text c.kind
    then rest
    else elim (read_field c s) [ none ↦ none | some s' ↦ read_fields cs s' ]

-- The end of `init`
abbrev pub make_event : TcpStep → TcpStep
make_event s = elim s.base.kind [
  | send ↦ record s { event_tx = some false }
  | recv ↦ record s { event_tx = some true }
  | check ↦ s
]

pub init : ℕ → XmlNode → Option TcpStep
init junk node = elim (init_base junk node new_step) [
  | none ↦ none
  | some b ↦
      elim (read_fields node.children
        (record new_tcp_step { base = record b { protocol = ProtocolType.tcp } })) [
          | none ↦ none
          | some s ↦ some (make_event s)
        ]
]

-- What the steps of a thread act on: `cps_map`, the messages handed to sockets, the timeout queue that
-- the sockets share, and what a transaction is told of its timeout.
pub record World : Type 0 where
  pub cps_map : ConnectionMap
  pub sent : List (ℕ × List ℕ)
  pub timeouts : TimeoutQueue
  pub overtime : ℤ
  pub timeout_node : ℕ

-- `send`; a world of `none` is what undefined behaviour leaves: the connection or the content is NULL.
pub send_step : ℕ → TcpStep → Option World → StepResult × Option World
send_step thread s none = (errend, none)
send_step thread s (some w) = elim s.base.kind [
  | recv ↦ (errend, some w)
  | _ ↦
      (let (c, m) = at thread w.cps_map in
        if c == 0 then (errend, none) else elim s.base.content [
          | none ↦ (errend, none)
          | some content ↦
              (succ, some (record w { cps_map = m; sent = w.sent ++ ((c, c_string content) ∷ []) }))
        ])
]

-- `recv`, once an event is there: the length of the response is compared with that of the content.
-- `parent` says whether `m_parent` is a step.
pub compare_length : (parent : Bool) → Option (List ℕ) → TcpEvent → Option StepResult
compare_length false content e = none
compare_length true none e = none
compare_length true (some content) e = elim e.length [
  | none ↦ none
  | some n ↦ some (if n ==ℤ pos (length (c_string content)) then succ else errend)
]

-- `recv`. Without an event, `pEvent->type()` dereferences NULL.
pub recv_step :
    ℕ → (parent : Bool) → TcpStep → Option TcpEvent → Option World → StepResult × Option World
recv_step thread parent s e none = (errend, none)
recv_step thread parent s e (some w) = elim s.base.kind [
  | send ↦ (errend, some w)
  | _ ↦ elim e [
    | none ↦ (errend, none)
    | some event ↦ elim event.kind [
      | EventType.tcp_data ↦
          (let (c, m) = at thread w.cps_map in
            if c == 0 then (errend, none) else elim (compare_length parent s.base.content event) [
              | none ↦ (errend, none)
              | some r ↦ (r, some (record w { cps_map = m }))
            ])
      | _ ↦ (errend, some w)
    ]
  ]
]

-- `suprecv`: a node for the timeout, at the address `fresh`, goes into the timeout queue.
pub sup_recv : (thread now rand fresh : ℕ) → TcpStep → Option World → Option World
sup_recv thread now rand fresh s none = none
sup_recv thread now rand fresh s (some w) =
    let (c, m) = at thread w.cps_map in
    let overtime = s.base.timer +ℤ pos now in
    let node : TimeoutNode = record {
      time = pos_part overtime;
      name = 0;
      transaction = c;
      next = 0;
      parent = 0;
    } in
    let memory = write fresh node w.timeouts.memory in
    if c == 0 then none else elim (en_tqueue rand fresh (record w.timeouts { memory = memory })) [
      | none ↦ none
      | some q ↦
          some (record w { cps_map = m; timeouts = q; overtime = overtime; timeout_node = fresh })
    ]

-- The virtual functions of the step. Its time and its new node come from outside.
abbrev pub tcp_handlers :
    (thread now rand fresh : ℕ) → (parent : Bool) → TcpStep → Handlers TcpEvent (Option World)
tcp_handlers thread now rand fresh parent s = record {
  supsend = λ w. w;
  send = λ e w. send_step thread s w;
  suprecv = λ w. sup_recv thread now rand fresh s w;
  recv = λ e w. recv_step thread parent s e w;
}
