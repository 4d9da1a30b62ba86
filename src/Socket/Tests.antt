-- ===== src/Socket/Tests.antt =====
-- A socket over plain lists, whose transaction has a plain queue.
use ptf.Prelude.{ℕ, ◌≡◌, refl, true, false, some, List, [], ◌∷◌, arith}
use ptf.Evbuffer.Lists.{list_buffer, list_laws}
use ptf.Transaction.{Transaction}
use ptf.Transaction.Queues.{list_queue}
use ptf.Socket.{TcpEvent, Socket, read_cb, send_msg}
use ptf.Socket.Receive.{TakesIn, read_cb-TakesIn}
use ptf.Socket.Send.{send_msg-c_string}

abbrev waiting : Transaction (List TcpEvent)
waiting = record {
  queue = [];
  is_send = false;
  cur_step = some 1;
  usage = record { using = 1; used = 0 };
}

-- Two bytes have come in before.
abbrev half : Socket (List ℕ) (List TcpEvent)
half = record {
  readbuff = b'A' ∷ b'B' ∷ [];
  writebuff = b'o' ∷ b'l' ∷ [];
  has_base = true;
  transaction = waiting;
}

read_cb-TakesIn_example :
    let (input', s') = read_cb list_buffer (list_queue 511) (b'C' ∷ b'D' ∷ b'E' ∷ []) half in
    TakesIn list_buffer (list_queue 511) (λ b. b) list_laws (b'A' ∷ b'B' ∷ b'C' ∷ b'D' ∷ []) half s'
    × (input' ≡ [])
read_cb-TakesIn_example =
    read_cb-TakesIn list_buffer (list_queue 511) (λ b. b) list_laws (b'C' ∷ b'D' ∷ b'E' ∷ []) half
      (omega arith) (omega arith)

-- The write succeeds, and `sendMsg` says false.
send_msg-c_string_example :
    (b : List ℕ) × (b ≡ b'h' ∷ b'i' ∷ [])
    × (send_msg list_buffer (list_queue 511) (λ b. (true, [])) (b'h' ∷ b'i' ∷ 0 ∷ b'x' ∷ []) half
        ≡ (false, record half { writebuff = [] }))
send_msg-c_string_example =
    send_msg-c_string list_buffer (list_queue 511) (λ b. b) list_laws (λ b. (true, []))
      (b'h' ∷ b'i' ∷ []) (b'x' ∷ []) half refl (refl, (refl, tt))
