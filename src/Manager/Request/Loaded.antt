-- ===== src/Manager/Request/Loaded.antt =====
-- How `processHttpReq` of src/manager.C loads the script of a request and connects the workers.
use ptf.Prelude.{
  ℕ, ◌≤◌, ◌≡◌, refl, ap, ◌∙◌, ◌≢◌, ◌==◌, true, some, List, [], ◌∷◌, ◌++◌, map, length, get_or,
}
use ptf.Http.Text.{Text}
use ptf.Text.{codes, text_eq}
use ptf.Socket.{c_string}
use ptf.Steps.Tcp.RoundTrip.{TcpSpec, node_of}
use ptf.Script.{loaded}
use ptf.Script.Property.{load_script}
use ptf.Script.Property.RoundTrip.{AllReadable, any_step_of, address_of, load_script-nodes_of}
use ptf.Manager.Connect.{fill, pool_address}
use ptf.Manager.Connect.Sockets.{Distinct, Connected, connect_tcp-create_socket_pool}
use ptf.Manager.World.{Testcase, Env, ScriptObject, Manager}
use ptf.Manager.Request.{
  read_testcase, read_file, read_script, run_script, connect_workers, start_workers, run_testcase,
}

abbrev pub threads_of : Manager → List ℕ
threads_of m = map (λ td. td.thread_id) m.threads

-- A manager without a pool of sockets yet, with at most twenty workers, each on its own thread.
pub record Ready (env : Env) (m : Manager) : Type 0 where
  pub no_pool : m.csocket_map ≡ []
  pub few : length (threads_of m) ≤ 20
  pub distinct : Distinct (threads_of m)
  pub sockets : (i : ℕ) → env.socket_address i ≢ 0

-- A request whose test case is a script of the TCP steps `t ∷ ts`, the first to the address of the pool.
pub record TcpRequest (env : Env) (body : Text) (testcase : Testcase) (home : Text) (t : TcpSpec)
    (ts : List TcpSpec) : Type 0 where
  pub opens : (get_or (body ++ env.behind_body) 0 0 == b'{') ≡ true
  pub testcase_of : read_testcase env (c_string (body ++ env.behind_body)) ≡ some testcase
  pub home_of : env.home ≡ some home
  pub creatable : env.can_create (home ++ (codes "/task/" ++ testcase.filename)) ≡ true
  pub protocol : testcase.protocol ≡ codes "TCP"
  pub xml : env.parse_xml testcase.file ≡ some (true, map node_of (t ∷ ts))
  pub plain : AllReadable (t ∷ ts)
  pub address : address_of t ≡ pool_address

pub connect_workers-tcp :
    (env : Env) (m : Manager)
    → Ready env m
    → (n : Manager) × (connect_workers env (codes "TCP") pool_address m ≡ some n)
      × (n ≡ record m { csocket_map = n.csocket_map; cps_map = n.cps_map })
      × Connected (threads_of m) (fill env.socket_address 0 20 []) m.cps_map n.cps_map
unfolding connect_workers text_eq
connect_workers-tcp env m v =
    let (ps, cps, e, c) =
      connect_tcp-create_socket_pool env.socket_address (threads_of m) m.cps_map v.few v.distinct
        v.sockets in
    (record m { csocket_map = ps; cps_map = cps }, rw (v.no_pool, e), refl, c)

module _ (env : Env) (testcase : Testcase) (t : TcpSpec) (ts : List TcpSpec) where
  -- The script that is made, from the file at a path.
  abbrev pub script_of : Text → ScriptObject
  script_of path = record {
    address = env.script_address;
    file_path = path;
    protocol = codes "TCP";
    conn_str = pool_address;
    loading = loaded (map any_step_of (t ∷ ts));
  }

  unfoldable pub with_script : Text → Manager → Manager
  with_script path m = record m { scripts = m.scripts ++ (script_of path ∷ []) }

  found :
      (path : Text) (m : Manager)
      → env.parse_xml testcase.file ≡ some (true, map node_of (t ∷ ts))
      → read_file path m.files ≡ some testcase.file
      → read_script env path m.files ≡ some (true, map node_of (t ∷ ts))
  unfolding read_script
  found path m xml file = rw (file, read_script, xml)

  load_file :
      (path : Text) (m : Manager)
      → env.parse_xml testcase.file ≡ some (true, map node_of (t ∷ ts))
      → AllReadable (t ∷ ts)
      → address_of t ≡ pool_address
      → read_file path m.files ≡ some testcase.file
      → load_script env.has_transaction env.junk env.junk_port (read_script env path m.files)
        ≡ (loaded (map any_step_of (t ∷ ts)), pool_address)
  load_file path m xml plain address file =
      ap (load_script env.has_transaction env.junk env.junk_port) (found path m xml file)
      ∙ (load_script-nodes_of env.has_transaction env.junk env.junk_port t ts plain
          ∙ ap (λ a. (loaded (map any_step_of (t ∷ ts)), a)) address)

  run_script-tcp :
      (path : Text) (m : Manager) {n : Manager}
      → connect_workers env (codes "TCP") pool_address (with_script path m) ≡ some n
      → run_script env (codes "TCP") path (loaded (map any_step_of (t ∷ ts)), pool_address) m
        ≡ some (start_workers env true n)
  unfolding run_script text_eq with_script
  run_script-tcp path m connected = rw (connected, run_script)

  pub run_testcase-tcp :
      (path : Text) (m : Manager) {n : Manager}
      → testcase.protocol ≡ codes "TCP"
      → env.parse_xml testcase.file ≡ some (true, map node_of (t ∷ ts))
      → AllReadable (t ∷ ts)
      → address_of t ≡ pool_address
      → read_file path m.files ≡ some testcase.file
      → connect_workers env (codes "TCP") pool_address (with_script path m) ≡ some n
      → run_testcase env testcase path m ≡ some (start_workers env true n)
  unfolding run_testcase
  run_testcase-tcp path m protocol xml plain address file connected =
      ap
        (λ p.
          run_script env p path
            (load_script env.has_transaction env.junk env.junk_port (read_script env path m.files))
            m)
        protocol
      ∙ ap (λ l. run_script env (codes "TCP") path l m) (load_file path m xml plain address file)
      ∙ run_script-tcp path m connected
