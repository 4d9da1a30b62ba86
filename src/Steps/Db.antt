-- ===== src/Steps/Db.antt =====
-- src/dbstep.h, src/dbstep.C, src/stdoutstep.h, src/stdoutstep.C: a step that runs a query, and one that
-- prints. The database is a parameter. `none` stands for undefined behaviour.
pub mod RoundTrip
use ptf.Prelude.{ℕ, Bool, Option, none, some, List, [], ◌∷◌, ◌++◌, if◌then◌else◌}
use ptf.Http.Text.{Text}
use ptf.Text.{codes, text_eq}
use ptf.Xml.{Child, XmlNode, is_text}
use ptf.Step.{StepType, send, recv}
use ptf.Transaction.{StepResult, errend, succ}
use ptf.Steps.{ProtocolType, step_type}

-- `TDBConn`
pub record DbConn : Type 0 where
  pub wait : Text
  pub conn_type : Text
  pub port : Text
  pub host : Text
  pub username : Text
  pub password : Text
  pub dbname : Text
  pub sql : Text

-- `TRMDBStep`
pub record DbStep : Type 0 where
  pub kind : StepType
  pub protocol : ProtocolType
  pub conn : DbConn
  pub result : Text
  pub conn_str : Text
  pub sql_str : Text

abbrev pub new_db_step : DbStep
new_db_step = record {
  kind = send;
  protocol = ProtocolType.unknown;
  conn = record {
    wait = [];
    conn_type = [];
    port = [];
    host = [];
    username = [];
    password = [];
    dbname = [];
    sql = [];
  };
  result = [];
  conn_str = [];
  sql_str = [];
}

-- What a child's name and value set; `none` is `return false`.
pub set_field : Text → Text → DbStep → Option DbStep
set_field name value s =
    if text_eq name (codes "wait")
    then some (record s { conn = record s.conn { wait = value } })
    else if text_eq name (codes "host")
    then some (record s { conn = record s.conn { host = value } })
    else if text_eq name (codes "port")
    then some (record s { conn = record s.conn { port = value } })
    else if text_eq name (codes "username")
    then some (record s { conn = record s.conn { username = value } })
    else if text_eq name (codes "password")
    then some (record s { conn = record s.conn { password = value } })
    else if text_eq name (codes "db_name")
    then some (record s { conn = record s.conn { dbname = value } })
    else if text_eq name (codes "sql")
    then some (record s { conn = record s.conn { sql = value } })
    else if text_eq name (codes "protocol")
    then some (record s { conn = record s.conn { conn_type = value } })
    else if text_eq name (codes "result")
    then some (record s { result = value })
    else none

-- The loop of `init`: a step, `return false`, or a child without a value, on which `string(NULL)` is
-- undefined.
pub read_fields : List Child → DbStep → Option (Option DbStep)
read_fields [] s = some (some s)
read_fields (c ∷ cs) s =
    let rest = read_fields cs s in
    if is_text c.kind then rest else elim c.content [
      | none ↦ none
      | some value ↦ elim (set_field c.name value s) [
        | none ↦ some none
        | some s' ↦ read_fields cs s'
      ]
    ]

-- The end of `init`
abbrev pub connect_strings : DbStep → DbStep
connect_strings s = record s {
  conn_str =
      s.conn.conn_type
      ++ (codes "://"
          ++ (codes "host="
              ++ (s.conn.host
                  ++ (codes " dbname="
                      ++ (s.conn.dbname
                          ++ (codes " user="
                              ++ (s.conn.username
                                  ++ (codes " password="
                                      ++ (s.conn.password
                                          ++ (codes " port=" ++ s.conn.port))))))))));
  sql_str = s.conn.sql;
}

-- `init` from the `if` on the node's name on
pub init_node : XmlNode → Option (Option DbStep)
init_node node = elim (step_type node.name) [
  | none ↦ some none
  | some kind ↦
      elim (read_fields node.children
        (record new_db_step { kind = kind; protocol = ProtocolType.rmdb })) [
          | none ↦ none
          | some none ↦ some none
          | some (some s) ↦ some (some (connect_strings s))
        ]
]

-- `init`: a text is passed over for its sibling, which may be NULL.
pub init : XmlNode → Option XmlNode → Option (Option DbStep)
init node sibling =
    if is_text node.kind
    then elim sibling [ none ↦ none | some next ↦ init_node next ]
    else init_node node

-- `send`. `query` is whether `open` and the query go through without an exception.
pub send_step : (Text → Text → Bool) → DbStep → StepResult
send_step query s = elim s.kind [
  | recv ↦ errend
  | _ ↦ if query s.conn_str s.sql_str then succ else errend
]

-- `recv`: on a step of another type than "send" control reaches the end of the function.
pub recv_step : DbStep → Option StepResult
recv_step s = elim s.kind [ send ↦ some errend | _ ↦ none ]

-- `TStdoutStep::send`, with what it prints
pub stdout_send : Option (List ℕ) → StepResult × Option (List ℕ)
stdout_send content = (succ, content)

-- `TStdoutStep::recv`
pub stdout_recv : StepResult
stdout_recv = errend
