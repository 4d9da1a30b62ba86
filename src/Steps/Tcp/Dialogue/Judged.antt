-- ===== src/Steps/Tcp/Dialogue/Judged.antt =====
-- How the talks of a TCP script of src/tcpstep.C go, one after the other.
use ptf.Prelude.{
  false, Bool, Bool-cases, ◌⊎◌, inl, ℕ, ◌+◌, ◌<◌, ◌≤◌, ◌≡◌, refl, ap, ◌∙◌, ◌≢◌, inr, true, not,
  none, some, List, [], ◌∷◌, ◌++◌, append_assoc, arith, ◌==◌, if◌then◌else◌,
}
use ptf.Prelude.Int.{pos, ◌+ℤ◌}
use ptf.Transaction.{succ, errend, Usage, returned, on_event}
use ptf.Transaction.Queues.{list_queue}
use ptf.Socket.{c_string}
use ptf.Pool.Task.{find}
use ptf.Timeout.{TimeoutQueue, en_tqueue}
use ptf.Timeout.Chain.{Linked, Apart, write-Linked, write_self, en_tqueue-Linked}
use ptf.Script.{links_of}
use ptf.Script.Exchange.{done}
use ptf.Script.Dialogue.{Dialogue, ends, goes_on, sending_at, on_event-Dialogue}
use ptf.Steps.Tcp.{TcpStep, World, recv_step}
use ptf.Steps.Tcp.RoundTrip.{TcpSpec}
use ptf.Steps.Tcp.Exchange.{
  sender, receiver, waiting_queue, after_exchange, sent, supervised, received,
}
use ptf.Steps.Tcp.Dialogue.{
  Talk, answer, is_right, course, rounds_of, steps_count, Scripted, nodes_after, run_steps, Talked,
}

steps_count-le : (i : ℕ) (xs : List Talk) → i ≤ steps_count i xs
steps_count-le i [] = omega arith
steps_count-le i (x ∷ xs) = omega (arith, steps_count-le (i + 1 + 1) xs)

Apart-nodes_after : (xs : List Talk) (ys : List ℕ) → Apart (nodes_after xs ys) → Apart ys
Apart-nodes_after [] ys h = h
Apart-nodes_after (x ∷ xs) ys h = (Apart-nodes_after xs (x.fresh ∷ ys) h).1

module _ (thread now rand : ℕ) (steps : ℕ → TcpStep) (fresh : ℕ → ℕ) where
  step_sent :
      (i c : ℕ) (out : TcpSpec) (w : World)
      → steps i ≡ sender out
      → find thread w.cps_map ≡ some c
      → c ≢ 0
      → run_steps thread now rand steps fresh i none (some w)
        ≡ (succ, some (record w { sent = w.sent ++ ((c, c_string out.content) ∷ []) }))
  step_sent i c out w e found ne = rw e (sent thread now rand (fresh i) c out w found ne)

  step_received :
      (i c : ℕ) (x : Talk) (w : World) {q : TimeoutQueue} (b : Bool)
      → is_right x ≡ b
      → steps (i + 1) ≡ receiver x.back
      → fresh (i + 1) ≡ x.fresh
      → find thread w.cps_map ≡ some c
      → c ≢ 0
      → en_tqueue rand x.fresh (waiting_queue thread now rand x.fresh c x.back w.timeouts) ≡ some q
      → run_steps thread now rand steps fresh (i + 1) (some (answer x)) (some w) ≡ (
        if b then succ else errend,
        some (record w {
          timeouts = q;
          overtime = pos x.back.wait +ℤ pos now;
          timeout_node = x.fresh;
        }),
      )
  step_received i c x w {q} b judged e at_fresh found ne queued =
      let w' : World = record w {
        timeouts = q;
        overtime = pos x.back.wait +ℤ pos now;
        timeout_node = x.fresh;
      } in
      rw (e, at_fresh, later)
        (ap (recv_step thread true (receiver x.back) (some (answer x)))
            (supervised thread now rand x.fresh c x.back w found ne queued)
          ∙ received thread now rand x.fresh c x.back w' x.heard found ne
          ∙ ap (λ k. (if k then succ else errend, some w')) judged)
    where
      later : not (i + 1 == 0) ≡ true
      later = ground arith

  -- Where one talk leads, given the nodes that are in the timeout queue.
  queued_node :
      (c : ℕ) (x : Talk) (w : World) (ys : List ℕ)
      → x.fresh ≢ 0
      → Apart (x.fresh ∷ ys)
      → Linked w.timeouts.memory 0 w.timeouts.node ys
      → (q : TimeoutQueue) × (en_tqueue rand x.fresh
            (waiting_queue thread now rand x.fresh c x.back w.timeouts)
          ≡ some q)
        × Linked q.memory 0 q.node (x.fresh ∷ ys)
  queued_node c x w ys live apart l =
      en_tqueue-Linked rand x.fresh ys (waiting_queue thread now rand x.fresh c x.back w.timeouts)
        live (write_self x.fresh _ w.timeouts.memory)
        (write-Linked x.fresh _ w.timeouts.memory 0 w.timeouts.node ys apart.0 l) apart

  -- The talks from the step `i` on
  Talks : (cap c i : ℕ) → List Talk → List ℕ → World → Type 0
  Talks cap c i xs ys w =
      (w' : World) × Dialogue cap (run_steps thread now rand steps fresh) (steps_count i xs) i
        (some w) (rounds_of xs) (course xs).0 (some w')
      × Talked thread now rand steps fresh c (course xs).1 ys w w'

  -- One talk after which no other takes place: its answer is wrong, or it is the last.
  last_talk :
      (cap c i : ℕ) (x : Talk) (xs : List Talk) (ys : List ℕ) (w : World) (b : Bool)
      → is_right x ≡ b
      → Scripted steps fresh i (x ∷ xs)
      → find thread w.cps_map ≡ some c
      → c ≢ 0
      → Apart (x.fresh ∷ ys)
      → Linked w.timeouts.memory 0 w.timeouts.node ys
      → ((if b then succ else errend) ≡ errend)
        ⊎ (((if b then succ else errend) ≡ succ) × (i + 1 + 1 ≡ steps_count i (x ∷ xs)))
      → (w' : World) × Dialogue cap
          (run_steps thread now rand steps fresh)
          (steps_count i (x ∷ xs))
          i
          (some w)
          (rounds_of (x ∷ xs))
          (if b then succ else errend)
          (some w')
        × Talked thread now rand steps fresh c (x ∷ []) ys w w'
  last_talk cap c i x xs ys w b judged (send_at, recv_at, fresh_at, live, more) found ne apart l
        over =
      let (q, queued, l') = queued_node c x w ys live apart l in
      let out : ℕ × List ℕ = (c, c_string x.out.content) in
      let w' : World = record w { sent = w.sent ++ (out ∷ []) } in
      (
        after_exchange thread now rand x.fresh c x.out x.back q w,
        ends x.delay (answer x) (rounds_of xs) (omega (arith, steps_count-le (i + 1 + 1) xs))
            (step_sent i c x.out w send_at found ne)
            (step_received i c x w' b judged recv_at fresh_at found ne queued) over,
        (refl, l'),
      )

  -- One talk with the right answer, before others
  next_talk :
      (cap c i : ℕ) (x z : Talk) (xs : List Talk) (ys : List ℕ) (w : World)
      → is_right x ≡ true
      → Scripted steps fresh i (x ∷ z ∷ xs)
      → find thread w.cps_map ≡ some c
      → c ≢ 0
      → Apart (nodes_after (x ∷ z ∷ xs) ys)
      → Linked w.timeouts.memory 0 w.timeouts.node ys
      → ((w'' : World)
          → Scripted steps fresh (i + 1 + 1) (z ∷ xs)
          → find thread w''.cps_map ≡ some c
          → c ≢ 0
          → Apart (nodes_after (z ∷ xs) (x.fresh ∷ ys))
          → Linked w''.timeouts.memory 0 w''.timeouts.node (x.fresh ∷ ys)
          → Talks cap c (i + 1 + 1) (z ∷ xs) (x.fresh ∷ ys) w'')
      → (w' : World) × Dialogue cap
          (run_steps thread now rand steps fresh)
          (steps_count i (x ∷ z ∷ xs))
          i
          (some w)
          (rounds_of (x ∷ z ∷ xs))
          (course (z ∷ xs)).0
          (some w')
        × Talked thread now rand steps fresh c (x ∷ (course (z ∷ xs)).1) ys w w'
  unfolding Talks
  next_talk cap c i x z xs ys w right (send_at, recv_at, fresh_at, live, more) found ne apart l
        again =
      let (q, queued, l') =
        queued_node c x w ys live (Apart-nodes_after (z ∷ xs) (x.fresh ∷ ys) apart) l in
      let out : ℕ × List ℕ = (c, c_string x.out.content) in
      let w' : World = record w { sent = w.sent ++ (out ∷ []) } in
      let (w'', dialogue, (sends, linked)) =
        again (after_exchange thread now rand x.fresh c x.out x.back q w) more found ne apart l' in
      (
        w'',
        goes_on x.delay (answer x) (rounds_of (z ∷ xs))
            (omega (arith, steps_count-le (i + 1 + 1 + 1 + 1) xs))
            (step_sent i c x.out w send_at found ne)
            (step_received i c x w' true right recv_at fresh_at found ne queued) dialogue,
        (sends ∙ append_assoc w.sent (out ∷ []) _, linked),
      )

  talks :
      (cap c i : ℕ) (x : Talk) (xs : List Talk) (ys : List ℕ) (w : World)
      → Scripted steps fresh i (x ∷ xs)
      → find thread w.cps_map ≡ some c
      → c ≢ 0
      → Apart (nodes_after (x ∷ xs) ys)
      → Linked w.timeouts.memory 0 w.timeouts.node ys
      → Talks cap c i (x ∷ xs) ys w
  unfolding Talks
  talks cap c i x [] ys w scripted found ne apart l = elim (Bool-cases (is_right x)) [
    | inl right ↦
        rw right
          (last_talk cap c i x [] ys w true right scripted found ne apart l (inr (refl, refl)))
    | inr wrong ↦
        rw wrong (last_talk cap c i x [] ys w false wrong scripted found ne apart l (inl refl))
  ]
  talks cap c i x (z ∷ xs) ys w scripted found ne apart l = elim (Bool-cases (is_right x)) [
    | inl right ↦ rw right (
        next_talk cap c i x z xs ys w right scripted found ne apart l
          (λ w''. talks cap c (i + 1 + 1) z xs (x.fresh ∷ ys) w''))
    | inr wrong ↦ rw wrong (
        last_talk cap c i x (z ∷ xs) ys w false wrong scripted found ne
          (Apart-nodes_after (z ∷ xs) (x.fresh ∷ ys) apart) l (inl refl))
  ]

  -- On a thread with a connection, a script of one message or more, each with its answer, and with distinct new
  -- addresses for the nodes of its times: whatever the lengths and delays of the answers, `onEvent` goes
  -- through the talks up to the first whose answer has not the length that is expected, and fails there, or
  -- succeeds if there is none. The contents of just these talks have then been sent, in order and each up to its
  -- first 0, and the timeout queue is linked both ways and holds a node for each of them in front of
  -- those it held before.
  pub on_event-talks :
      (cap c : ℕ) (x : Talk) (xs : List Talk) (ys : List ℕ) (u : Usage) (w : World)
      → 0 < cap
      → Scripted steps fresh 0 (x ∷ xs)
      → find thread w.cps_map ≡ some c
      → c ≢ 0
      → Apart (nodes_after (x ∷ xs) ys)
      → Linked w.timeouts.memory 0 w.timeouts.node ys
      → (w' : World) × (on_event
            (list_queue cap)
            (links_of (steps_count 0 (x ∷ xs)))
            (run_steps thread now rand steps fresh)
            (rounds_of (x ∷ xs))
            (sending_at 0 u)
            (some w)
          ≡ returned (course (x ∷ xs)).0 (done u) (some w'))
        × Talked thread now rand steps fresh c (course (x ∷ xs)).1 ys w w'
  unfolding Talks
  on_event-talks cap c x xs ys u w big scripted found ne apart l =
      let (w', dialogue, talked) = talks cap c 0 x xs ys w scripted found ne apart l in
      (
        w',
        on_event-Dialogue cap (run_steps thread now rand steps fresh) (steps_count 0 (x ∷ xs)) u big
            dialogue,
        talked,
      )
