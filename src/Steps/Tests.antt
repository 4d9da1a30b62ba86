-- ===== src/Steps/Tests.antt =====
-- Concrete steps, on a thread 6 with the connection 40.
use ptf.Prelude.{◌≡◌, refl, true, false, none, some, [], ◌∷◌, arith}
use ptf.Prelude.Int.{pos}
use ptf.Http.Text.{has}
use ptf.Text.{codes}
use ptf.Event.{tx}
use ptf.Transaction.{Usage, errend, returned, on_event}
use ptf.Transaction.Queues.{list_queue}
use ptf.Pool.Task.{find}
use ptf.Timeout.{TimeoutQueue, write}
use ptf.Script.{links_of, loaded}
use ptf.Script.Exchange.{answered_after, starting, done}
use ptf.Script.Property.{load_script}
use ptf.Script.Property.RoundTrip.{any_step_of, address_of, load_script-nodes_of}
use ptf.Steps.Tcp.RoundTrip.{TcpSpec, node_of}
use ptf.Steps.Tcp.Exchange.{run_pair}
use ptf.Steps.Tcp
use ptf.Steps.Db
use ptf.Steps.Db.RoundTrip as DbTrip
use ptf.Steps.Db.RoundTrip.{host, port, meant, init-with_values}
use ptf.Steps.Web.{WebStep, new_web_step, Client, get}
use ptf.Steps.Web
use ptf.Steps.Web.Exchange as WebExchange
use ptf.Steps.Web.Exchange.{on_event-web}
use ptf.Steps.Web.Sent.{Page, header_of, WellFormed, after_send}

abbrev ping : TcpSpec
ping = record { sends = true; wait = 1; ip = codes "10.0.0.1"; port = 80; content = codes "ab" }

abbrev pong : TcpSpec
pong = record { sends = false; wait = 5; ip = codes "10.0.0.1"; port = 80; content = codes "cd" }

load_script-nodes_of_example :
    load_script false 0 (pos 9) (some (true, node_of ping ∷ node_of pong ∷ []))
    ≡ (loaded (any_step_of ping ∷ any_step_of pong ∷ []), address_of ping)
load_script-nodes_of_example = load_script-nodes_of false 0 (pos 9) ping (pong ∷ []) (
  ((refl, (refl, tt)), omega arith, omega arith),
  (((refl, (refl, tt)), omega arith, omega arith), tt),
)

abbrev used_once : Usage
used_once = record { using = 1; used = 0 }

abbrev no_timeouts : TimeoutQueue
no_timeouts = record { size = pos 0; node = 0; memory = λ a. none }

abbrev tcp_world : Tcp.World
tcp_world = record {
  cps_map = (6, 40) ∷ [];
  sent = [];
  timeouts = no_timeouts;
  overtime = pos 0;
  timeout_node = 0;
}

-- The queue with its first node, 90, for the second 105
abbrev one_timeout : TimeoutQueue
one_timeout = record {
  size = pos 1;
  node = 90;
  memory =
      write 90 (record { time = 105; name = 0; transaction = 40; next = 0; parent = 0 })
        (write 90 (record { time = 105; name = 0; transaction = 40; next = 0; parent = 0 })
          (λ a. none));
}

abbrev page : Page
page = record { method = get; url = codes "/a"; version = codes "HTTP/1.1"; fields = []; rest = [] }

page-WellFormed : WellFormed page
unfolding has
page-WellFormed = record { no_space = refl; lines = (refl, tt); no_newline = refl }

abbrev web_step : WebStep
web_step = record new_web_step { header = header_of page }

-- No text is a URI, and every connection can be made.
abbrev client : Client
client = record { parse_uri = λ t. none; connect = λ h p. true }

abbrev web_world : Web.World
web_world = record {
  cps_map = (6, 40) ∷ (7, 41) ∷ [];
  connections = λ c. none;
  host = codes "h";
  made = [];
}

on_event-web_example :
    on_event
      (list_queue 4)
      (links_of 2)
      (WebExchange.run_pair client 6 web_step new_web_step)
      ([] ∷ answered_after 1 (record { direction = tx; response_code = pos 500 }))
      (starting used_once)
      (some web_world)
    ≡ returned errend
        (done used_once)
        (some (after_send 40 (some (codes "http://h"), pos 80) page [] web_world))
unfolding find Web.connection_for Web.peer_of
on_event-web_example =
    on_event-web client 6 4 1 40 web_step new_web_step page used_once web_world (pos 500)
      (omega arith) refl (λ e. omega (arith, e)) refl refl page-WellFormed

-- The host is given twice.
init-with_values_example :
    Db.init
      (DbTrip.node_of true ((host, codes "a") ∷ (port, codes "3306") ∷ (host, codes "b") ∷ []))
      none
    ≡ some (some (meant true ((host, codes "a") ∷ (port, codes "3306") ∷ (host, codes "b") ∷ [])))
init-with_values_example =
    init-with_values true ((host, codes "a") ∷ (port, codes "3306") ∷ (host, codes "b") ∷ [])
