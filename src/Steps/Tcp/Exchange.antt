-- ===== src/Steps/Tcp/Exchange.antt =====
-- A TCP script of a "send" and a "recv", as src/tcpstep.C runs it: the message goes out over the thread's
-- connection, and the answer is judged by its length.
use ptf.Prelude.{
  ℕ, zero, suc, ◌≡◌, ◌≢◌, true, false, Option, some, [], ◌∷◌, ◌++◌, length, ne→==, if◌then◌else◌,
}
use ptf.Prelude.Int.{ℤ, pos, pos_part, ◌+ℤ◌, ◌==ℤ◌}
use ptf.Event.{EventType}
use ptf.Transaction.{StepResult, errend, succ}
use ptf.Socket.{TcpEvent, c_string}
use ptf.Pool.Task.{find}
use ptf.Pool.Task.Binding.{at-found}
use ptf.Timeout.{write, TimeoutQueue, en_tqueue}
use ptf.Step.{handle}
use ptf.Steps.Tcp.{TcpStep, World, send_step, compare_length, recv_step, sup_recv, tcp_handlers}
use ptf.Steps.Tcp.RoundTrip.{TcpSpec, step_of}

abbrev pub sender : TcpSpec → TcpStep
sender t = step_of (record t { sends = true })

abbrev pub receiver : TcpSpec → TcpStep
receiver t = step_of (record t { sends = false })

module _ (thread now rand fresh : ℕ) where
  -- The `switch` of `run` on the two steps, the second with the first for its parent.
  abbrev pub run_pair :
      TcpSpec → TcpSpec → ℕ → Option TcpEvent → Option World → StepResult × Option World
  run_pair out back zero e w =
      handle (tcp_handlers thread now rand fresh false (sender out)) (sender out).base.kind e w
  run_pair out back (suc i) e w =
      handle (tcp_handlers thread now rand fresh true (receiver back)) (receiver back).base.kind e w

  -- The timeout queue with a new node for the connection
  abbrev pub waiting_queue : ℕ → TcpSpec → TimeoutQueue → TimeoutQueue
  waiting_queue c back q = record q {
    memory =
        write fresh
          (record {
            time = pos_part (pos back.wait +ℤ pos now);
            name = 0;
            transaction = c;
            next = 0;
            parent = 0;
          })
          q.memory;
  }

  abbrev pub after_exchange : ℕ → TcpSpec → TcpSpec → TimeoutQueue → World → World
  after_exchange c out back q w = record w {
    sent = w.sent ++ ((c, c_string out.content) ∷ []);
    timeouts = q;
    overtime = pos back.wait +ℤ pos now;
    timeout_node = fresh;
  }

  abbrev pub verdict : ℤ → TcpSpec → StepResult
  verdict n back = if n ==ℤ pos (length (c_string back.content)) then succ else errend

  pub sent :
      (c : ℕ) (out : TcpSpec) (w : World)
      → find thread w.cps_map ≡ some c
      → c ≢ 0
      → send_step thread (sender out) (some w)
        ≡ (succ, some (record w { sent = w.sent ++ ((c, c_string out.content) ∷ []) }))
  unfolding send_step
  sent c out w found ne = simp (at-found thread c w.cps_map found, ne→== c 0 ne)

  pub supervised :
      (c : ℕ) (back : TcpSpec) (w : World) {q : TimeoutQueue}
      → find thread w.cps_map ≡ some c
      → c ≢ 0
      → en_tqueue rand fresh (waiting_queue c back w.timeouts) ≡ some q
      → sup_recv thread now rand fresh (receiver back) (some w)
        ≡ some
            (record w { timeouts = q; overtime = pos back.wait +ℤ pos now; timeout_node = fresh })
  unfolding sup_recv
  supervised c back w found ne queued =
      simp (at-found thread c w.cps_map found, ne→== c 0 ne, queued)

  pub received :
      (c : ℕ) (back : TcpSpec) (w : World) (n : ℤ)
      → find thread w.cps_map ≡ some c
      → c ≢ 0
      → recv_step thread true
          (receiver back)
          (some (record { kind = EventType.tcp_data; length = some n }))
          (some w)
        ≡ (verdict n back, some w)
  unfolding recv_step compare_length
  received c back w n found ne = simp (at-found thread c w.cps_map found, ne→== c 0 ne)
