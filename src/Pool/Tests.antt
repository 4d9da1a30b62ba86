-- ===== src/Pool/Tests.antt =====
-- Concrete tasks, workers and pools of src/mptthreadpool.C.
use ptf.Prelude.{◌+◌, ◌≡◌, refl, true, false, ◌&&◌, none, some, [], ◌∷◌, arith, ltb, if◌then◌else◌}
use ptf.Prelude.Int.{pos, negsuc}
use ptf.Event.{start, stop}
use ptf.Queue
use ptf.Pool.Task.{TaskInfo, new_task, tcp, ConnectionMap}
use ptf.Pool.Notify.{ThreadData, order_thread, dispatch, process}
use ptf.Pool.Notify.Delivery.{Waiting, order_thread-Waiting, process-Waiting}
use ptf.Pool.Setup.{Os, PoolState, setup_thread, open_pipes, create_threads, init}

-- Thread 6 has the connection 40.
abbrev connections : ConnectionMap
connections = (6, 40) ∷ []

-- The task that is stopped after its first round.
abbrev running : TaskInfo
running = record new_task {
  script = 70;
  tps = pos 3;
  total = pos 7;
  n_count = pos 3;
  duration = pos 1;
}

-- A worker whose queue has room for two, and one command waiting and announced.
abbrev worker : ThreadData
worker = record {
  thread_id = 6;
  queue = record {
    slots = some (start 70 (pos 3) (pos 7) (pos 0)) ∷ none ∷ none ∷ [];
    size = 3;
    head = 0;
    tail = 1;
    sp = true;
    sc = true;
  };
  pipe = 1;
  timer = false;
  task = new_task;
}

worker-Waiting : Waiting worker (start 70 (pos 3) (pos 7) (pos 0) ∷ [])
worker-Waiting = record {
  held = record {
    big = omega arith;
    fits = omega arith;
    stored_len = refl;
    head_in = omega arith;
    tail_in = omega arith;
    room = omega arith;
    tail_at = refl;
    stored = (refl, tt);
  };
  one_producer = refl;
  announced = omega arith;
}

order_thread-Waiting_example :
    let (done, td') = order_thread worker (stop 70) true in
    let (done', q') = Queue.push 2 (start 70 (pos 3) (pos 7) (pos 0) ∷ []) (stop 70) in
    (done ≡ done') × Waiting td' q' × (td'.pipe ≡ (if done && true then 2 else 1))
order_thread-Waiting_example = order_thread-Waiting (stop 70) true worker-Waiting

process-Waiting_example :
    (td' : ThreadData) × (process 99 tcp worker connections
      ≡ dispatch tcp td' (start 70 (pos 3) (pos 7) (pos 0)) connections)
    × Waiting td' []
    × (td'.task ≡ new_task)
    × (td'.thread_id ≡ 6)
process-Waiting_example = process-Waiting 99 tcp connections worker-Waiting (λ e. omega arith)

-- Everything is granted but the event base of worker 1.
abbrev machine : Os
machine = record {
  pipe = λ i. some (10 + i, 20 + i);
  base = λ i. ltb i 1;
  add_event = λ i. true;
  create = λ i. 0;
}

abbrev idle_pool : PoolState
idle_pool = record { count = 0; threads = none }

-- Worker 1 was not set up, and `init` still gives 0.
init_unnoticed : init machine idle_pool 2 ≡ (
  pos 0,
  record {
    count = 2;
    threads = some (
        record { read_fd = 10; write_fd = 20; set_up = pos 0; running = true }
        ∷ record { read_fd = 11; write_fd = 21; set_up = negsuc 1; running = true }
        ∷ []);
  },
)
unfolding init open_pipes create_threads setup_thread
init_unnoticed = refl
