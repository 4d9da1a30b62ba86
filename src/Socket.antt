-- ===== src/Socket.antt =====
-- src/socketpool.h, src/socketpool.C: the connections of the workers. libevent's buffers are a
-- parameter; lengths are below 2^31. A callback runs where libevent calls it: `buffer_add_cb` when
-- `read_cb` adds to the read buffer.
pub mod Receive
pub mod Send
pub mod Opening
mod Tests
use ptf.Prelude.{
  ℕ, zero, suc, ◌+◌, ◌-◌, ◌%◌, ◌^◌, Bool, true, false, not, Option, none, some, List, [], ◌∷◌, ◌++◌,
  ltb, ◌==◌, if◌then◌else◌,
}
use ptf.Prelude.Int.{ℤ, pos, negsuc}
use ptf.Event.{EventType}
use ptf.Evbuffer.{Evbuffer}
use ptf.Http.Frame.{receive_http_response}
use ptf.Transaction.{QueueOps, Transaction, push_event}

-- `TTCPEvent`, without its data, which nobody sets. `none` is a length that is not assigned.
pub record TcpEvent : Type 0 where
  pub kind : EventType
  pub length : Option ℤ

-- `CSocket`: its buffers, whether `s_base` is there, and its transaction
pub record Socket (Buffer Q : Type 0) : Type 0 where
  pub readbuff : Buffer
  pub writebuff : Buffer
  pub has_base : Bool
  pub transaction : Transaction Q

-- What `error_cb` is told.
pub data Condition : Type 0 where
  eof failed connected other_condition : Condition

-- `strlen` and the bytes before the 0
unfoldable pub c_string : List ℕ → List ℕ
c_string [] = []
c_string (c ∷ cs) = if c == 0 then [] else c ∷ c_string cs

module _ {Buffer Q : Type 0} (ev : Evbuffer Buffer) (ops : QueueOps TcpEvent Q) where
  -- The copy of the read buffer in which `buffer_add_cb` looks for a response.
  abbrev pub copy_of : Buffer → Buffer
  copy_of b = ev.add ev.new (ev.copyout b (ev.get_length b))

  -- The rest of `buffer_add_cb`, once `receiveHttpResponse` gave `found`; -1 is its only negative
  -- result.
  pub take_response : ℤ → Socket Buffer Q → Socket Buffer Q
  take_response (negsuc k) s = s
  take_response (pos n) s =
      let (done, b) = ev.drain s.readbuff n in
      let event : TcpEvent = record {
        kind = EventType.tcp_data;
        length = some (if done then pos n else negsuc 0);
      } in
      record s { readbuff = b; transaction = (push_event ops (some event) s.transaction).1 }

  pub buffer_add_cb : ℕ → Socket Buffer Q → Socket Buffer Q
  buffer_add_cb n_added s =
      if ltb 0 n_added
      then take_response (receive_http_response ev (some (copy_of s.readbuff))) s
      else s

  -- `read_cb` on the input of the connection: input and socket after. `input_len - 1` is a `size_t`.
  pub read_cb : Buffer → Socket Buffer Q → Buffer × Socket Buffer Q
  read_cb input s =
      let input_len = ev.get_length input in
      let (input', b) = ev.remove_buffer input s.readbuff ((input_len + 2 ^ 64 - 1) % 2 ^ 64) in
      let s' =
        buffer_add_cb (ev.get_length b - ev.get_length s.readbuff) (record s { readbuff = b }) in
      let (_, input'') = ev.drain input' (ev.get_length input') in (input'', s')

  pub error_cb : Condition → Socket Buffer Q → Socket Buffer Q
  error_cb connected s = s
  error_cb eof s = record s {
    transaction =
        (push_event ops (some (record { kind = EventType.error; length = none })) s.transaction).1;
  }
  error_cb failed s = record s {
    transaction =
        (push_event ops (some (record { kind = EventType.error; length = none })) s.transaction).1;
  }
  error_cb other_condition s = record s {
    transaction =
        (push_event ops (some (record { kind = EventType.error; length = none })) s.transaction).1;
  }

  -- `sendMsg`. `write` is `bufferevent_write_buffer`: whether it succeeds, and the buffer after. It
  -- gives 0 for success, which the `if` reads as false.
  pub send_msg : (Buffer → Bool × Buffer) → List ℕ → Socket Buffer Q → Bool × Socket Buffer Q
  send_msg write content s =
      if s.has_base
      then (let (_, emptied) = ev.drain s.writebuff (ev.get_length s.writebuff) in
          let (done, b) = write (ev.add emptied (c_string content)) in
          (not done, record s { writebuff = b }))
      else (false, s)

-- `CSocketPool::m_queue`: sockets by number
abbrev pub SocketPool : Type 0
SocketPool = List ℕ

-- `getSocket`; `none` is `front` of an empty queue, which is undefined.
unfoldable pub get_socket : SocketPool → Option (ℕ × SocketPool)
get_socket [] = none
get_socket (c ∷ q) = some (c, q)

-- `backSocket`; 0 is NULL.
pub back_socket : ℕ → SocketPool → SocketPool
back_socket zero q = q
back_socket (suc c) q = q ++ (suc c ∷ [])
