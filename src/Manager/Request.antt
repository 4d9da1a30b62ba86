-- ===== src/Manager/Request.antt =====
-- `processHttpReq` of src/manager.C, `Testcase` of src/model/testcase.h. A result of `none` stands for
-- undefined behaviour, or for an exception, that nothing catches.
pub mod Urls
pub mod Loaded
pub mod Started
use ptf.Prelude.{
  ℕ, zero, suc, ◌+◌, ◌==◌, Bool, true, false, Option, none, some, List, [], ◌∷◌, ◌++◌, map, get_or,
  if◌then◌else◌,
}
use ptf.Prelude.Int.{ℤ, pos, negsuc}
use ptf.Http.Text.{Text}
use ptf.Text.{codes, text_eq, strncmp_eq}
use ptf.Xml.{XmlNode}
use ptf.Socket.{c_string}
use ptf.Pool.Task.{ConnectionMap}
use ptf.Pool.Notify.{ThreadData}
use ptf.Script.{Loading, undefined, refused, loaded}
use ptf.Script.Property.{AnyStep, load_script}
use ptf.Manager.World.{
  Testcase, Json, Env, Reply, ScriptObject, Manager, add_text, send_reply, send_empty_reply,
}
use ptf.Manager.Connect.{PoolMap, create_socket_pool, connect_tcp, connect_http}
use ptf.Manager.Orders.{choose_workers, order_workers}

-- `value[name].asInt()` and then the rest, and the same for `asString`
abbrev pub int_then : {A : Type 0} → Json → Text → (ℤ → Option A) → Option A
int_then value name f = elim (value.as_int name) [ none ↦ none | some n ↦ f n ]

abbrev pub string_then : {A : Type 0} → Json → Text → (Text → Option A) → Option A
string_then value name f = elim (value.as_string name) [ none ↦ none | some t ↦ f t ]

-- The test case of a body: unassigned, but for its texts, where the body does not parse.
unfoldable pub read_testcase : Env → Text → Option Testcase
read_testcase env text = elim (env.parse_json text) [
  | none ↦ some env.new_testcase
  | some value ↦ int_then value (codes "tps") (λ tps. int_then value (codes "duration") (λ duration.
      int_then value (codes "concurrenceMode") (λ concurrence_mode.
        int_then value (codes "timedelay") (λ timedelay.
          int_then value (codes "threshold") (λ threshold.
            int_then value (codes "pressureMode") (λ pressure_mode.
              string_then value (codes "protocol") (λ protocol.
                string_then value (codes "scriptName") (λ filename.
                  string_then value (codes "file") (λ file. int_then value (codes "step") (λ step.
                    int_then value (codes "targetTps") (λ target_tps. some (record {
                      tps = tps;
                      duration = duration;
                      concurrence_mode = concurrence_mode;
                      timedelay = timedelay;
                      threshold = threshold;
                      pressure_mode = pressure_mode;
                      protocol = protocol;
                      filename = filename;
                      file = file;
                      step = step;
                      target_tps = target_tps;
                    }))))))))))))
]

-- What a path holds; a file that was written last comes first.
pub read_file : Text → List (Text × Text) → Option Text
read_file path [] = none
read_file path ((p, content) ∷ fs) = if text_eq p path then some content else read_file path fs

-- The file is written, or the request is refused, and goes on.
pub save_file : Env → Text → Text → Manager → Manager
save_file env path content m =
    if env.can_create path
    then record m { files = (path, content) ∷ m.files }
    else send_empty_reply 400 (codes "Request Error") (add_text (codes "Can not create the file") m)

-- The connections of the workers for the protocol of the test case
pub connect_workers : Env → (protocol conn_str : Text) → Manager → Option Manager
connect_workers env protocol conn_str m =
    let threads = map (λ td. td.thread_id) m.threads in
    if text_eq protocol (codes "TCP")
    then elim (connect_tcp conn_str threads (create_socket_pool env.socket_address m.csocket_map)
        m.cps_map) [
          | none ↦ none
          | some (ps, cps) ↦ some (record m { csocket_map = ps; cps_map = cps })
        ]
    else if text_eq protocol (codes "HTTP")
    then some (record m { cps_map = connect_http env.connection_address 0 threads m.cps_map })
    else some m

-- `m_protocol` after the handler
abbrev pub script_protocol : Text → Text
script_protocol protocol =
    if text_eq protocol (codes "TCP")
    then codes "TCP"
    else if text_eq protocol (codes "HTTP")
    then codes "HTTP"
    else []

-- From the result of `TScript::init` on
pub start_workers : Env → (ret : Bool) → Manager → Manager
start_workers env false m =
    send_empty_reply 500 (codes "Internal Error") (add_text (codes "load task failed!") m)
start_workers env true m =
    elim (order_workers env.written env.script_address choose_workers m.threads) [
      | none ↦ send_empty_reply 500 (codes "Internal Error") m
      | some threads ↦
          send_reply 200 (codes "OK")
            (add_text (codes "start task successfully!") (record m { threads = threads }))
    ]

-- Whether `TScript::init` returned true; `none` if it ran into undefined behaviour.
abbrev pub load_result : Loading AnyStep → Option Bool
load_result undefined = none
load_result refused = some false
load_result (loaded steps) = some true

-- What `TScript::init` finds in the file
pub read_script : Env → Text → List (Text × Text) → Option (Bool × List XmlNode)
unfolding read_file
read_script env path files = elim (read_file path files) [
  | none ↦ none
  | some text ↦ env.parse_xml text
]

-- From the loaded script on: the workers are connected and started.
pub run_script : Env → (protocol path : Text) → Loading AnyStep × Text → Manager → Option Manager
run_script env protocol path (loading, conn_str) m =
    let script : ScriptObject = record {
      address = env.script_address;
      file_path = path;
      protocol = script_protocol protocol;
      conn_str = conn_str;
      loading = loading;
    } in
    elim (load_result loading) [
      | none ↦ none
      | some ret ↦
          elim (connect_workers env protocol conn_str
            (record m { scripts = m.scripts ++ (script ∷ []) })) [
              | none ↦ none
              | some m' ↦ some (start_workers env ret m')
            ]
    ]

-- From the file on: the script is made and loaded.
pub run_testcase : Env → Testcase → Text → Manager → Option Manager
run_testcase env testcase path m =
    run_script env testcase.protocol path
      (load_script env.has_transaction env.junk env.junk_port (read_script env path m.files)) m

-- The request for a new test, with its body. `string(req_body)` ends at the first 0, which may lie behind
-- the body.
pub new_test : Env → Text → Manager → Option Manager
unfolding read_testcase save_file run_testcase
new_test env body m =
    let text = c_string (body ++ env.behind_body) in
    if get_or (body ++ env.behind_body) 0 0 == b'{'
    then elim (read_testcase env text) [
      | none ↦ none
      | some testcase ↦ elim env.home [
        | none ↦ none
        | some home ↦
            (let path = home ++ (codes "/task/" ++ testcase.filename) in
              run_testcase env testcase path (save_file env path testcase.file m))
      ]
    ]
    else some
        (send_reply 400 (codes "ERROR") (add_text (codes "BAD REQUEST!" ++ env.behind_literal) m))

-- `processHttpReq`, on the decoded URL, with an empty `buff` and no replies
pub process_http_req : Env → (url body : Text) → Manager → Option Manager
unfolding new_test
process_http_req env url body m =
    if text_eq (codes "/") url
    then some (send_reply 200 (codes "OK") (add_text (codes "It works!") m))
    else if strncmp_eq (codes "/ptf") url 4
    then (let m' = send_reply 200 (codes "OK") (add_text (codes "start task successfully!") m) in
        if strncmp_eq (codes "/ptf/new_test") url 18 then new_test env body m' else some m')
    else some (send_empty_reply 404 (codes "Not Found") m)
