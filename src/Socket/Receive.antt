-- ===== src/Socket/Receive.antt =====
-- What comes in on a connection of src/socketpool.C, and what its transaction is told.
use ptf.Prelude.{
  ℕ, ◌+◌, ◌-◌, ◌%◌, ◌^◌, ◌≤◌, ◌<◌, ◌≡◌, refl, ap, ◌∙◌, ◌⊎◌, inl, inr, Bool, true, false, some, List,
  [], ◌∷◌, ◌++◌, length, take, drop, arith, subst, ltb, Bool-cases, if◌then◌else◌,
}
use ptf.Prelude.Int.{ℤ, pos, negsuc}
use ptf.Event.{EventType}
use ptf.Evbuffer.{Evbuffer, EvbufferLaws}
use ptf.Http.Frame.{receive_http_response}
use ptf.Http.Frame.Extent.{receive-le-length}
use ptf.Transaction.{QueueOps, push_event}
use ptf.Socket.{TcpEvent, Socket, copy_of, take_response, buffer_add_cb, read_cb}

take_all : (xs : List ℕ) → take (length xs) xs ≡ xs
take_all [] = refl
take_all (x ∷ xs) = ap (λ ys. x ∷ ys) (take_all xs)

pub drop_all : (xs : List ℕ) → drop (length xs) xs ≡ []
drop_all [] = refl
drop_all (x ∷ xs) = drop_all xs

module _ {Buffer Q : Type 0} (ev : Evbuffer Buffer) (ops : QueueOps TcpEvent Q)
    (bytes : Buffer → List ℕ) (laws : EvbufferLaws ev bytes) where
  bytes-copy_of : (b : Buffer) → bytes (copy_of ev ops b) ≡ bytes b
  bytes-copy_of b =
      laws.add-bytes ev.new (ev.copyout b (ev.get_length b))
      ∙ rw (laws.bytes-new, laws.copyout-bytes b (ev.get_length b), laws.get_length-bytes b)
          (take_all (bytes b))

  -- A socket that took in the bytes `xs`: either it keeps them and tells its transaction nothing, or
  -- it gives up the first `n` of them, one at least, and pushes one event that says how many.
  abbrev pub TakesIn : List ℕ → Socket Buffer Q → Socket Buffer Q → Type 0
  TakesIn xs s s' =
      ((bytes s'.readbuff ≡ xs) × (s'.transaction ≡ s.transaction))
      ⊎ ((n : ℕ) × (0 < n)
          × (n ≤ length xs)
          × (bytes s'.readbuff ≡ drop n xs)
          × ((l : ℤ) × ((l ≡ pos n) ⊎ (l ≡ negsuc 0))
              × (s'.transaction
                  ≡ (push_event ops (some (record { kind = EventType.tcp_data; length = some l }))
                      s.transaction).1)))

  told_length :
      (done : Bool) (n : ℕ)
      → ((if done then pos n else negsuc 0) ≡ pos n)
        ⊎ ((if done then pos n else negsuc 0) ≡ negsuc 0)
  told_length true n = inl refl
  told_length false n = inr refl

  take_response-TakesIn :
      (found : ℤ) (s : Socket Buffer Q)
      → receive_http_response ev (some (copy_of ev ops s.readbuff)) ≡ found
      → TakesIn (bytes s.readbuff) s (take_response ev ops found s)
  unfolding take_response
  take_response-TakesIn (negsuc k) s e = inl (refl, refl)
  take_response-TakesIn (pos n) s e =
      let (some_bytes, fits) = receive-le-length ev bytes laws (copy_of ev ops s.readbuff) n e in
      inr (
        n,
        some_bytes,
        rw (← bytes-copy_of s.readbuff) fits,
        laws.drain-bytes s.readbuff n,
        (_, told_length (ev.drain s.readbuff n).0 n, refl),
      )

  -- `buffer_add_cb` either leaves the read buffer and the transaction alone, or takes the first bytes
  -- off the buffer, one at least and no more than there are, and pushes one event with their number.
  pub buffer_add_cb-TakesIn :
      (n_added : ℕ) (s : Socket Buffer Q)
      → TakesIn (bytes s.readbuff) s (buffer_add_cb ev ops n_added s)
  unfolding buffer_add_cb
  buffer_add_cb-TakesIn n_added s = elim (Bool-cases (ltb 0 n_added)) [
    | inl more ↦
        rw more (
          take_response-TakesIn (receive_http_response ev (some (copy_of ev ops s.readbuff))) s
            refl)
    | inr nothing ↦ rw nothing (inl (refl, refl))
  ]

  -- `read_cb` on an input of at least one byte and fewer than 2^31: the last byte of the input is lost, what stands before it
  -- is taken in behind what the read buffer holds, and the input is empty then.
  pub read_cb-TakesIn :
      (input : Buffer) (s : Socket Buffer Q)
      → 0 < length (bytes input)
      → length (bytes input) < 2 ^ 31
      → let (input', s') = read_cb ev ops input s in
        TakesIn (bytes s.readbuff ++ take (length (bytes input) - 1) (bytes input)) s s'
        × (bytes input' ≡ [])
  unfolding read_cb
  read_cb-TakesIn input s some_bytes small = (
    subst (λ xs. TakesIn xs s (read_cb ev ops input s).1) all_but_one
        (buffer_add_cb-TakesIn (ev.get_length moved.1 - ev.get_length s.readbuff)
          (record s { readbuff = moved.1 })),
    laws.drain-bytes moved.0 (ev.get_length moved.0)
        ∙ rw (laws.get_length-bytes moved.0) (drop_all (bytes moved.0)),
  )
    where
      moved : Buffer × Buffer
      moved = ev.remove_buffer input s.readbuff ((ev.get_length input + 2 ^ 64 - 1) % 2 ^ 64)

      one_less : (ev.get_length input + 2 ^ 64 - 1) % 2 ^ 64 ≡ length (bytes input) - 1
      one_less = omega (arith, laws.get_length-bytes input)

      all_but_one :
          bytes moved.1 ≡ bytes s.readbuff ++ take (length (bytes input) - 1) (bytes input)
      all_but_one =
          laws.remove_buffer-destination input s.readbuff
            ((ev.get_length input + 2 ^ 64 - 1) % 2 ^ 64)
          ∙ ap (λ n. bytes s.readbuff ++ take n (bytes input)) one_less
