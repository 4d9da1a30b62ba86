-- ===== src/Manager/Tests.antt =====
-- A manager of two workers, and concrete requests to it.
use ptf.Prelude.{
  ℕ, suc, ◌≡◌, refl, ◌≢◌, inl, true, false, none, some, [], ◌∷◌, map, get_elem?, arith,
  if◌then◌else◌,
}
use ptf.Prelude.Int.{pos}
use ptf.Text.{codes, text_eq, to_string, digits}
use ptf.Pool.Task.{new_task}
use ptf.Pool.Notify.{ThreadData}
use ptf.Pool.Notify.Delivery.{Waiting}
use ptf.Steps.Tcp.RoundTrip.{TcpSpec, node_of}
use ptf.Manager.Connect.{fill, create_socket_pool, connect_tcp}
use ptf.Manager.Connect.Sockets.{Connected, connect_tcp-undefined}
use ptf.Manager.Orders.Received.{Ordered}
use ptf.Manager.World.{Testcase, Json, Env, Manager}
use ptf.Manager.Request.{read_testcase, process_http_req}
use ptf.Manager.Request.Urls.{new_test_url, OneReply, process_http_req-other_url}
use ptf.Manager.Request.Loaded.{Ready, TcpRequest, threads_of, script_of}
use ptf.Manager.Request.Started.{told, process_http_req-started}

abbrev addresses : ℕ → ℕ
addresses i = suc i

addresses-ne : (i : ℕ) → addresses i ≢ 0
addresses-ne i e = omega (arith, e)

-- A script for another host.
connect_tcp-undefined_example :
    connect_tcp (codes "10.0.0.1:80") (6 ∷ 7 ∷ []) (create_socket_pool addresses []) [] ≡ none
connect_tcp-undefined_example =
    connect_tcp-undefined addresses (codes "10.0.0.1:80") 6 (7 ∷ []) [] (inl (λ e. cc))

-- A worker whose ring of three slots is empty.
abbrev worker : ℕ → ThreadData
worker thread = record {
  thread_id = thread;
  queue = record {
    slots = none ∷ none ∷ none ∷ [];
    size = 3;
    head = 0;
    tail = 0;
    sp = true;
    sc = true;
  };
  pipe = 0;
  timer = false;
  task = new_task;
}

worker-Waiting : (thread : ℕ) → Waiting (worker thread) []
worker-Waiting thread = record {
  held = record {
    big = omega arith;
    fits = omega arith;
    stored_len = refl;
    head_in = omega arith;
    tail_in = omega arith;
    room = omega arith;
    tail_at = refl;
    stored = tt;
  };
  one_producer = refl;
  announced = omega arith;
}

abbrev idle : Manager
idle = record {
  threads = worker 6 ∷ worker 7 ∷ [];
  cps_map = [];
  csocket_map = [];
  files = [];
  scripts = [];
  buff = [];
  replies = [];
}

-- Sending "ab", and waiting for an answer of two bytes.
abbrev ping : TcpSpec
ping = record { sends = true; wait = 1; ip = codes "127.0.0.1"; port = 8000; content = codes "ab" }

abbrev pong : TcpSpec
pong = record { sends = false; wait = 5; ip = codes "127.0.0.1"; port = 8000; content = codes "cd" }

abbrev testcase : Testcase
testcase = record {
  tps = pos 1;
  duration = pos 1;
  concurrence_mode = pos 1;
  timedelay = pos 1;
  threshold = pos 1;
  pressure_mode = pos 1;
  protocol = codes "TCP";
  filename = codes "a.xml";
  file = codes "<root/>";
  step = pos 1;
  target_tps = pos 1;
}

abbrev document : Json
document = record {
  as_int = λ name. some (pos 1);
  as_string = λ name.
      if text_eq name (codes "protocol")
      then some testcase.protocol
      else if text_eq name (codes "scriptName")
      then some testcase.filename
      else some testcase.file;
}

abbrev env : Env
env = record {
  parse_json = λ text. some document;
  home = some (codes "/ptf");
  can_create = λ path. true;
  parse_xml = λ text. some (true, map node_of (ping ∷ pong ∷ []));
  written = λ i. true;
  behind_body = 0 ∷ [];
  behind_literal = 0 ∷ [];
  new_testcase = testcase;
  has_transaction = false;
  junk = 0;
  junk_port = pos 0;
  script_address = 70;
  socket_address = addresses;
  connection_address = addresses;
}

idle-Ready : Ready env idle
idle-Ready = record {
  no_pool = refl;
  few = omega arith;
  distinct = (((λ e. omega (arith, e)), tt), (tt, tt));
  sockets = addresses-ne;
}

request : TcpRequest env (codes "{}") testcase (codes "/ptf") ping (pong ∷ [])
unfolding read_testcase text_eq to_string digits
request = record {
  opens = refl;
  testcase_of = refl;
  home_of = refl;
  creatable = refl;
  protocol = refl;
  xml = refl;
  plain = (
    ((refl, (refl, tt)), omega arith, omega arith),
    (((refl, (refl, tt)), omega arith, omega arith), tt),
  );
  address = refl;
}

-- Worker 7 has the order, and worker 7's socket is the second.
process_http_req-started_example :
    (n : Manager) × (td' : ThreadData) × (process_http_req env new_test_url (codes "{}") idle
      ≡ some n)
    × (get_elem? n.threads 1 ≡ some td')
    × Ordered (worker 7) td' 70 true []
    × Connected (threads_of idle) (fill addresses 0 20 []) [] n.cps_map
    × (n.scripts ≡ script_of env testcase ping (pong ∷ []) (codes "/ptf/task/a.xml") ∷ [])
    × (n.replies
        ≡ told (codes "start task successfully!") ∷ told (codes "start task successfully!") ∷ [])
process_http_req-started_example =
    process_http_req-started env (codes "{}") testcase (codes "/ptf") ping (pong ∷ []) idle 1
      idle-Ready request refl (worker-Waiting 7) (omega arith) refl

process_http_req-other_url_example :
    (n : Manager) × (process_http_req env (codes "/ptf/new_test?a=1") (codes "{}") idle ≡ some n)
    × OneReply idle n
process_http_req-other_url_example =
    process_http_req-other_url env (codes "/ptf/new_test?a=1") (codes "{}") idle (λ e. cc)
