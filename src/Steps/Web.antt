-- ===== src/Steps/Web.antt =====
-- src/httpstep.h, src/httpstep.C, src/httpevent.h, src/httpevent.C: a step that makes an HTTP request over
-- the connection of its thread, or looks at the response code. libevent's client is a parameter.
pub mod Sent
pub mod Exchange
use ptf.Prelude.{
  ℕ, ◌+◌, ◌==◌, Bool, true, false, ◌||◌, ◌&&◌, not, Option, none, some, List, [], ◌∷◌, ◌++◌, length,
  ltb, if◌then◌else◌,
}
use ptf.Prelude.Int.{ℤ, pos, negsuc, ltb_ℤ, ◌==ℤ◌}
use ptf.Event.{EventType, Direction, tx}
use ptf.Http.Text.{Text}
use ptf.Http.Headers.{Headers}
use ptf.Http.Parser.{Request, fresh, parse}
use ptf.Text.{codes, text_eq, atoi}
use ptf.Xml.{Child, XmlNode, is_text}
use ptf.Step.{StepType, send, recv, check, Handlers}
use ptf.Transaction.{StepResult, errend, succ}
use ptf.Pool.Task.{ConnectionMap, at}
use ptf.Steps.{ProtocolType, StepBase, new_step, init_base}

-- `THTTPStep`
pub record WebStep : Type 0 where
  pub base : StepBase
  pub host : Text
  pub url : Text
  pub header : Text
  pub body : Text

abbrev pub new_web_step : WebStep
new_web_step = record { base = new_step; host = []; url = []; header = []; body = [] }

-- A child that is not a text. `none` is `return false`.
pub read_field : Child → WebStep → Option WebStep
read_field c s =
    if text_eq c.name (codes "wait")
    then elim c.content [
      | none ↦ some s
      | some value ↦ some (record s { base = record s.base { timer = atoi value } })
    ]
    else if text_eq c.name (codes "host")
    then elim c.content [ none ↦ none | some value ↦ some (record s { host = value }) ]
    else if text_eq c.name (codes "url")
    then elim c.content [ none ↦ none | some value ↦ some (record s { url = value }) ]
    else if text_eq c.name (codes "header")
    then elim c.content [ none ↦ none | some value ↦ some (record s { header = value }) ]
    else if text_eq c.name (codes "body")
    then elim c.content [
      | none ↦ some (record s { body = [] })
      | some value ↦ some (record s { body = value })
    ]
    else some s

-- The loop of `init`
pub read_fields : List Child → WebStep → Option WebStep
read_fields [] s = some s
read_fields (c ∷ cs) s =
    let rest = read_fields cs s in
    if is_text c.kind
    then rest
    else elim (read_field c s) [ none ↦ none | some s' ↦ read_fields cs s' ]

pub init : ℕ → XmlNode → Option WebStep
init junk node = elim (init_base junk node new_step) [
  | none ↦ none
  | some b ↦
      read_fields node.children
        (record new_web_step { base = record b { protocol = ProtocolType.http } })
]

-- libevent: `evhttp_uri_parse` with the host and port that it finds, and whether
-- `evhttp_connection_base_new` makes a connection.
pub record Client : Type 0 where
  pub parse_uri : Text → Option (Option Text × ℤ)
  pub connect : Option Text → ℤ → Bool

-- The methods that the program asks for.
pub data Method : Type 0 where
  get post : Method

-- What `evhttp_make_request` is given: the connection, by what it was made for, and the request.
pub record Made : Type 0 where
  pub peer : Option Text × ℤ
  pub method : Method
  pub url : Text
  pub headers : Headers
  pub body : Text

-- What the steps of a thread act on: `cps_map`, `m_connection` of each `CHttpConnection`, the `m_host` of
-- the step, which `send` writes to, and the requests made.
pub record World : Type 0 where
  pub cps_map : ConnectionMap
  pub connections : ℕ → Option (Option Text × ℤ)
  pub host : Text
  pub made : List Made

-- The peer of a host: the port is 80 if none is given, and the whole text is the host if it is no URI.
unfoldable pub peer_of : Client → Text → Option Text × ℤ
peer_of client host = elim (client.parse_uri host) [
  | none ↦ (some host, pos 80)
  | some (h, p) ↦ (h, (if ltb_ℤ (pos 0) p then p else pos 80))
]

-- The connection of the thread, a new one where there is none. `none` is NULL.
unfoldable pub connection_for : Client → Text → Option (Option Text × ℤ) → Option (Option Text × ℤ)
connection_for client host (some peer) = some peer
connection_for client host none =
    let (h, p) = peer_of client host in if client.connect h p then some (h, p) else none

abbrev pub keep :
    ℕ → Option Text × ℤ → (ℕ → Option (Option Text × ℤ)) → ℕ → Option (Option Text × ℤ)
keep c peer connections d = if d == c then some peer else connections d

-- From the parsed header on: a request is made for GET and POST, and for another method none.
pub make_request : Option Text × ℤ → Request → Text → World → StepResult × World
make_request peer q body w =
    let made : Method → Made = λ method. record {
      peer = peer;
      method = method;
      url = q.url;
      headers = q.headers;
      body = body;
    } in
    if ltb 0 (length q.method) && ltb 0 (length q.url)
    then (
      succ,
      (if text_eq q.method (codes "GET")
          then record w { made = w.made ++ (made get ∷ []) }
          else if text_eq q.method (codes "POST")
          then record w { made = w.made ++ (made post ∷ []) }
          else w),
    )
    else (errend, w)

-- `send` over the connection that `cps_map` has, up to the return from `event_base_dispatch`. A world of
-- `none` is what undefined behaviour or an exception leaves: no connection can be made
-- (`evhttp_connection_set_closecb` is called with NULL before the test for it), or the header is one on
-- which `parse` throws.
pub send_over : Client → WebStep → ℕ × ConnectionMap → World → StepResult × Option World
send_over client s (c, m) w =
    let host = codes "http://" ++ w.host in
    if c == 0
    then (errend, some (record w { cps_map = m }))
    else elim (connection_for client host (w.connections c)) [
      | none ↦ (errend, none)
      | some peer ↦ elim (parse s.header fresh) [
        | none ↦ (errend, none)
        | some q ↦
            (let (r, w') =
                make_request peer q s.body (record w {
                  cps_map = m;
                  host = host;
                  connections = keep c peer w.connections;
                }) in
              (r, some w'))
      ]
    ]

-- `send`
pub send_step : Client → ℕ → WebStep → Option World → StepResult × Option World
send_step client thread s none = (errend, none)
send_step client thread s (some w) = send_over client s (at thread w.cps_map) w

-- `THttpEvent`: its direction and `response_code`; the type is `ET_HTTP`.
pub record WebEvent : Type 0 where
  pub direction : Direction
  pub response_code : ℤ

-- `recv`. Without an event, NULL is dereferenced.
pub recv_step : Option WebEvent → Option World → StepResult × Option World
recv_step e none = (errend, none)
recv_step none (some w) = (errend, none)
recv_step (some e) (some w) =
    if e.response_code ==ℤ pos 0
    then (errend, some w)
    else if e.response_code ==ℤ pos 200
        || e.response_code ==ℤ pos 302
        || e.response_code ==ℤ pos 404
    then (succ, some w)
    else (errend, some w)

-- What a callback does: the event that it pushes, if any, and whether it ends the loop that `send` is in.
pub record Effect : Type 0 where
  pub event : Option WebEvent
  pub exits : Bool

-- `ReadCallback`, on a request with its response code, or NULL
pub read_callback : Option ℤ → Effect
read_callback none = record { event = none; exits = false }
read_callback (some code) = record {
  event = some (record { direction = tx; response_code = code });
  exits = true;
}

-- `ErrorCallback`: whatever the error, it is printed.
pub error_callback : Effect
error_callback = record { event = none; exits = true }

-- `ClosedCallback`: whether it frees `m_dnsbase`, which is NULL afterwards.
pub closed_callback : (dnsbase : Bool) → Effect × Bool × Bool
closed_callback dnsbase = (record { event = none; exits = true }, dnsbase, false)

-- The virtual functions of the step
abbrev pub web_handlers : Client → ℕ → WebStep → Handlers WebEvent (Option World)
web_handlers client thread s = record {
  supsend = λ w. w;
  send = λ e w. send_step client thread s w;
  suprecv = λ w. w;
  recv = λ e w. recv_step e w;
}
