-- ===== src/Pool/Notify/Delivery.antt =====
-- The commands that wait for a worker of src/mptthreadpool.C, and what `order` and the worker's callback do
-- with them.
use ptf.Prelude.{
  ℕ, ◌+◌, ◌-◌, ◌≤◌, ◌≡◌, refl, ◌≢◌, Bool, true, false, none, List, [], ◌∷◌, set, arith, length,
  length-append, ltb, ltb→lt, Bool-cases, inl, inr, ◌==◌, ◌&&◌, ne→==, ne_of_==, if◌then◌else◌,
}
use ptf.Event.{Command, start, stop, other}
use ptf.Queue
use ptf.Ring.{Ring, next_index, enqueue}
use ptf.Ring.Rep.{Rep}
use ptf.Ring.Refine.{
  dequeue-cons, dequeued, extended, enqueue_written, enqueue_refused, not_full, full,
}
use ptf.Pool.Task.{Protocol, ConnectionMap}
use ptf.Pool.Notify.{ThreadData, deliver, order_thread, crashed, dispatch, process}

-- The worker's queue holds `q`, and no more bytes are in the pipe than commands in the queue.
pub record Waiting (td : ThreadData) (q : List Command) : Type 0 where
  pub held : Rep td.queue q
  pub one_producer : td.queue.sp ≡ true
  pub announced : td.pipe ≤ length q

pipe-deliver :
    (td : ThreadData) (queue : Ring Command) (written : Bool)
    → (deliver td queue written).pipe ≡ (if written then td.pipe + 1 else td.pipe)
pipe-deliver td queue true = refl
pipe-deliver td queue false = refl

deliver-Waiting :
    {td : ThreadData} {q q' : List Command} {queue : Ring Command} (written : Bool)
    → Waiting td q
    → Rep queue q'
    → queue.sp ≡ true
    → length q' ≡ length q + 1
    → Waiting (deliver td queue written) q'
deliver-Waiting true v held one e = record {
  held = held;
  one_producer = one;
  announced = omega (arith, v.announced);
}
deliver-Waiting false v held one e = record {
  held = held;
  one_producer = one;
  announced = omega (arith, v.announced);
}

-- On a worker whose ring holds its waiting commands and whose pipe has no more bytes than there are
-- commands, order answers as the bounded queue does, puts the command behind the waiting ones,
-- announces it with one byte if the write succeeds, and keeps the worker so.
pub order_thread-Waiting :
    {td : ThreadData} {q : List Command} (cmd : Command) (written : Bool)
    → Waiting td q
    → let (done, td') = order_thread td cmd written in
      let (done', q') = Queue.push (td.queue.size - 1) q cmd in
      (done ≡ done')
      × Waiting td' q'
      × (td'.pipe ≡ (if done && written then td.pipe + 1 else td.pipe))
unfolding order_thread Queue.push
order_thread-Waiting {td} {q} cmd written v =
    elim (Bool-cases (ltb (length q) (td.queue.size - 1))) [
      | inl below ↦
          let room = ltb→lt (length q) (td.queue.size - 1) below in
          rw
            (
              below,
              enqueue_written td.queue cmd (not_full v.held (omega arith)) (inl v.one_producer),
            )
            (
              refl,
              deliver-Waiting written v (extended v.held cmd (omega arith)) v.one_producer
                  (length-append q (cmd ∷ [])),
              pipe-deliver td _ written,
            )
      | inr above ↦
          rw (above, enqueue_refused td.queue cmd (full v.held (ground (arith, v.held.room))))
            (refl, v, refl)
    ]

deliver-thread_id :
    (td : ThreadData) (queue : Ring Command) (written : Bool)
    → (deliver td queue written).thread_id ≡ td.thread_id
deliver-thread_id td queue true = refl
deliver-thread_id td queue false = refl

pub order_thread-thread_id :
    (td : ThreadData) (cmd : Command) (written : Bool)
    → (order_thread td cmd written).1.thread_id ≡ td.thread_id
unfolding order_thread
order_thread-thread_id td cmd written = elim (Bool-cases (enqueue td.queue cmd).0) [
  | inl e ↦ rw (e, order_thread) (deliver-thread_id td (enqueue td.queue cmd).1 written)
  | inr e ↦ rw (e, order_thread)
]

dispatch-ne-crashed :
    (p : Protocol) (td : ThreadData) (cmd : Command) (m : ConnectionMap)
    → dispatch p td cmd m ≢ crashed
unfolding dispatch
dispatch-ne-crashed p td (start s a b c) m e = cc
dispatch-ne-crashed p td (stop s) m e = cc
dispatch-ne-crashed p td (other t) m e = cc

-- The worker once it has read a byte and taken the command at the head of its queue.
abbrev taken_from : ThreadData → ThreadData
taken_from td = record td {
  queue = record td.queue {
    slots = set td.queue.slots td.queue.head none;
    head = next_index td.queue.size td.queue.head;
  };
  pipe = td.pipe - 1;
}

process-taken :
    (junk : ℕ) (p : Protocol) {td : ThreadData} {cmd : Command} {q : List Command}
    (m : ConnectionMap)
    → Waiting td (cmd ∷ q)
    → td.pipe ≢ 0
    → process junk p td m ≡ dispatch p (taken_from td) cmd m
unfolding process
process-taken junk p {td} m v ne = simp (ne→== td.pipe 0 ne, dequeue-cons junk v.held)

-- On a worker whose ring holds its waiting commands and whose pipe has no more bytes than there are
-- commands, the callback, with a byte in the pipe, takes the oldest command and runs it on the
-- worker's task and thread, and the other commands wait on.
pub process-Waiting :
    (junk : ℕ) (p : Protocol) {td : ThreadData} {cmd : Command} {q : List Command}
    (m : ConnectionMap)
    → Waiting td (cmd ∷ q)
    → td.pipe ≢ 0
    → (td' : ThreadData) × (process junk p td m ≡ dispatch p td' cmd m)
      × Waiting td' q
      × (td'.task ≡ td.task)
      × (td'.thread_id ≡ td.thread_id)
process-Waiting junk p {td} m v ne = (
  taken_from td,
  process-taken junk p m v ne,
  record {
    held = dequeued v.held;
    one_producer = v.one_producer;
    announced = omega (arith, v.announced);
  },
  refl,
  refl,
)

-- A worker whose ring holds its waiting commands, with no more bytes in its pipe than commands, never
-- dereferences NULL when its callback is called.
pub process-ne-crashed :
    (junk : ℕ) (p : Protocol) {td : ThreadData} (q : List Command) (m : ConnectionMap)
    → Waiting td q
    → process junk p td m ≢ crashed
unfolding process
process-ne-crashed junk p {td} [] m v = rw no_bytes (λ e. cc)
  where
    no_bytes : (td.pipe == 0) ≡ true
    no_bytes = ground (arith, v.announced)
process-ne-crashed junk p {td} (cmd ∷ q) m v = elim (Bool-cases (td.pipe == 0)) [
  | inl e ↦ rw e (λ e'. cc)
  | inr e ↦
      rw (process-taken junk p m v (ne_of_== td.pipe 0 e))
        (dispatch-ne-crashed p (taken_from td) cmd m)
]
