-- ===== src/Manager/World.antt =====
-- What `processHttpReq` of src/manager.C asks others, finds and changes: `Testcase` of src/model/testcase.h,
-- jsoncpp and the other libraries as parameters, the replies, and the manager itself.
use ptf.Prelude.{ℕ, Bool, Option, List, [], ◌∷◌, ◌++◌}
use ptf.Prelude.Int.{ℤ}
use ptf.Http.Text.{Text}
use ptf.Xml.{XmlNode}
use ptf.Pool.Task.{ConnectionMap}
use ptf.Pool.Notify.{ThreadData}
use ptf.Script.{Loading}
use ptf.Script.Property.{AnyStep}
use ptf.Manager.Connect.{PoolMap}

-- `Testcase`. Its threshold is a `float`, set from an `int`.
pub record Testcase : Type 0 where
  pub tps : ℤ
  pub duration : ℤ
  pub concurrence_mode : ℤ
  pub timedelay : ℤ
  pub threshold : ℤ
  pub pressure_mode : ℤ
  pub protocol : Text
  pub filename : Text
  pub file : Text
  pub step : ℤ
  pub target_tps : ℤ

-- jsoncpp's value of a document: `asInt` and `asString` of a member, `none` being an exception.
pub record Json : Type 0 where
  pub as_int : Text → Option ℤ
  pub as_string : Text → Option Text

-- What the handler asks others: jsoncpp's `parse`, `getenv("PTF_HOME")`, whether a file can be opened for
-- writing, libxml's reading of a text as a script, whether a byte can be written to a worker's pipe. Then
-- what it does not determine: what lies behind the request body and behind the literal "BAD REQUEST!", an
-- unassigned test case, `m_transaction`, the values that `load_script` leaves open, and the addresses that
-- `new` gives to the script, to sockets and to connections.
pub record Env : Type 0 where
  pub parse_json : Text → Option Json
  pub home : Option Text
  pub can_create : Text → Bool
  pub parse_xml : Text → Option (Bool × List XmlNode)
  pub written : ℕ → Bool
  pub behind_body : Text
  pub behind_literal : Text
  pub new_testcase : Testcase
  pub has_transaction : Bool
  pub junk : ℕ
  pub junk_port : ℤ
  pub script_address : ℕ
  pub socket_address : ℕ → ℕ
  pub connection_address : ℕ → ℕ

-- A reply that `evhttp_send_reply` is asked for.
pub record Reply : Type 0 where
  pub code : ℕ
  pub reason : Text
  pub body : Text

-- A `TScript` that was made, with the protocol that the manager sets.
pub record ScriptObject : Type 0 where
  pub address : ℕ
  pub file_path : Text
  pub protocol : Text
  pub conn_str : Text
  pub loading : Loading AnyStep

-- What a request finds and changes: the workers, `cps_map`, `csocket_map`, the files, the scripts made, and
-- of the request itself the buffer for replies and the replies.
pub record Manager : Type 0 where
  pub threads : List ThreadData
  pub cps_map : ConnectionMap
  pub csocket_map : PoolMap
  pub files : List (Text × Text)
  pub scripts : List ScriptObject
  pub buff : Text
  pub replies : List Reply

-- `evbuffer_add` to `buff`
abbrev pub add_text : Text → Manager → Manager
add_text t m = record m { buff = m.buff ++ t }

-- `evhttp_send_reply` with `buff`, which is empty afterwards, and with NULL
abbrev pub send_reply : ℕ → Text → Manager → Manager
send_reply code reason m = record m {
  buff = [];
  replies = m.replies ++ (record { code = code; reason = reason; body = m.buff } ∷ []);
}

abbrev pub send_empty_reply : ℕ → Text → Manager → Manager
send_empty_reply code reason m = record m {
  replies = m.replies ++ (record { code = code; reason = reason; body = [] } ∷ []);
}
