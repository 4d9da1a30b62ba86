-- ===== src/Manager/Request/Started.antt =====
-- What a well-formed request for a new test does, in src/manager.C.
use ptf.Prelude.{
  ℕ, ◌-◌, ◌<◌, ◌≡◌, refl, sym, ap, subst, ◌∙◌, true, some, List, [], ◌∷◌, ◌++◌, length, get_elem?,
}
use ptf.Http.Text.{Text}
use ptf.Text.{codes, text_eq, strncmp_eq}
use ptf.Text.Compare.{text_eq_self}
use ptf.Event.{Command}
use ptf.Pool.Notify.{ThreadData}
use ptf.Pool.Notify.Delivery.{Waiting}
use ptf.Steps.Tcp.RoundTrip.{TcpSpec}
use ptf.Manager.Connect.{fill, pool_address}
use ptf.Manager.Connect.Sockets.{Connected}
use ptf.Manager.Orders.Received.{Ordered, order_workers-Ordered}
use ptf.Manager.World.{Testcase, Env, Reply, Manager}
use ptf.Manager.Request.{
  read_file, save_file, connect_workers, start_workers, new_test, process_http_req,
}
use ptf.Manager.Request.Urls.{new_test_url}
use ptf.Manager.Request.Loaded.{
  threads_of, Ready, TcpRequest, connect_workers-tcp, script_of, with_script, run_testcase-tcp,
}

-- The first line of the handler's result and what comes behind it.
abbrev pub told : Text → Reply
told t = record { code = 200; reason = codes "OK"; body = t }

start_workers-Ordered :
    (env : Env) (j : ℕ) (m : Manager) {td : ThreadData} {q : List Command}
    → get_elem? m.threads j ≡ some td
    → Waiting td q
    → length q < td.queue.size - 1
    → let n = start_workers env true m in
      (n ≡ record m {
        threads = n.threads;
        buff = [];
        replies = m.replies ++ (told (m.buff ++ codes "start task successfully!") ∷ []);
      })
      × ((td' : ThreadData) × (get_elem? n.threads j ≡ some td')
          × Ordered td td' env.script_address (env.written j) q)
unfolding start_workers
start_workers-Ordered env j m e v room =
    let (threads, td', ordered, at_j, v') =
      order_workers-Ordered env.written env.script_address j m.threads e v room in
    rw (ordered, start_workers) (refl, (td', at_j, v'))

-- The manager after the file is written.
with_file : Text → Text → Manager → Manager
with_file path content m = record m { files = (path, content) ∷ m.files }

read_written :
    (path content : Text) (files : List (Text × Text))
    → read_file path ((path, content) ∷ files) ≡ some content
unfolding read_file
read_written path content files = rw (text_eq_self path, read_file)

new_test-tcp :
    (env : Env) (body : Text) (testcase : Testcase) (home : Text) (t : TcpSpec) (ts : List TcpSpec)
    (m : Manager) {n : Manager}
    → TcpRequest env body testcase home t ts
    → let path = home ++ (codes "/task/" ++ testcase.filename) in
      connect_workers env
          (codes "TCP")
          pool_address
          (with_script env testcase t ts path (with_file path testcase.file m))
        ≡ some n
      → new_test env body m ≡ some (start_workers env true n)
unfolding new_test save_file with_file read_file
new_test-tcp env body testcase home t ts m r connected =
    let path = home ++ (codes "/task/" ++ testcase.filename) in
    simp (r.opens, r.testcase_of, r.home_of, r.creatable)
      (run_testcase-tcp env testcase t ts path (with_file path testcase.file m) r.protocol r.xml
        r.plain r.address (read_written path testcase.file m.files) connected)

-- After the first reply
answered : Manager → Manager
answered m = record m {
  buff = [];
  replies = m.replies ++ (told (m.buff ++ codes "start task successfully!") ∷ []);
}

Ready-kept :
    (env : Env) (m : Manager) (path : Text) (testcase : Testcase) (t : TcpSpec) (ts : List TcpSpec)
    → Ready env m
    → Ready env (with_script env testcase t ts path (with_file path testcase.file (answered m)))
unfolding with_script with_file answered
Ready-kept env m path testcase t ts ready = record {
  no_pool = ready.no_pool;
  few = ready.few;
  distinct = ready.distinct;
  sockets = ready.sockets;
}

-- For a manager without a pool of sockets yet and with at most twenty workers, each on its own
-- thread, and a request to /ptf/new_test whose test case is a script of TCP steps with times and
-- ports below 2^31 and contents without a backslash, the first to the address of the pool, and
-- whose file can be written: the script is made with the steps as they were sent, the k-th worker's
-- thread gets the k-th socket of the pool, and other threads keep what they had; a worker that
-- waits with room for a command has the order to start the script, ten transactions a round and
-- fifty in all, behind its commands, announced by a byte if it can be written; and two replies of
-- 200 are sent.
pub process_http_req-started :
    (env : Env) (body : Text) (testcase : Testcase) (home : Text) (t : TcpSpec) (ts : List TcpSpec)
    (m : Manager) (j : ℕ) {td : ThreadData} {q : List Command}
    → Ready env m
    → TcpRequest env body testcase home t ts
    → get_elem? m.threads j ≡ some td
    → Waiting td q
    → length q < td.queue.size - 1
    → m.buff ≡ []
    → (n : Manager) × (td' : ThreadData) × (process_http_req env new_test_url body m ≡ some n)
      × (get_elem? n.threads j ≡ some td')
      × Ordered td td' env.script_address (env.written j) q
      × Connected (threads_of m) (fill env.socket_address 0 20 []) m.cps_map n.cps_map
      × (n.scripts
          ≡ m.scripts
            ++ (script_of env testcase t ts (home ++ (codes "/task/" ++ testcase.filename)) ∷ []))
      × (n.replies
          ≡ (m.replies ++ (told (codes "start task successfully!") ∷ []))
            ++ (told (codes "start task successfully!") ∷ []))
unfolding process_http_req text_eq strncmp_eq with_script with_file answered
process_http_req-started env body testcase home t ts m j {td} {q} ready r e v room empty =
    let path = home ++ (codes "/task/" ++ testcase.filename) in
    let prepared = with_script env testcase t ts path (with_file path testcase.file (answered m)) in
    let (n, connected, same, sockets) =
      connect_workers-tcp env prepared (Ready-kept env m path testcase t ts ready) in
    let (changed, (td', at_j, v')) =
      start_workers-Ordered env j n (ap (λ k. get_elem? k.threads j) same ∙ e) v room in
    (
      start_workers env true n,
      td',
      new_test-tcp env body testcase home t ts (answered m) r connected,
      at_j,
      v',
      subst (λ k. Connected (threads_of m) (fill env.socket_address 0 20 []) m.cps_map k)
          (sym (ap (λ k. k.cps_map) changed)) sockets,
      ap (λ k. k.scripts) changed ∙ ap (λ k. k.scripts) same,
      ap (λ k. k.replies) changed
          ∙ ap second same
          ∙ ap
              (λ b. second (record (answered m) {
                buff = [];
                replies = m.replies ++ (told (b ++ codes "start task successfully!") ∷ []);
              }))
              empty,
    )
  where
    second : Manager → List Reply
    second k = k.replies ++ (told (k.buff ++ codes "start task successfully!") ∷ [])
