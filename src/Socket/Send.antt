-- ===== src/Socket/Send.antt =====
-- What `sendMsg` of src/socketpool.C writes.
use ptf.Prelude.{ℕ, ◌≡◌, refl, ap, ◌∙◌, Bool, true, false, not, List, [], ◌∷◌, ◌++◌, ◌==◌}
use ptf.Evbuffer.{Evbuffer, EvbufferLaws}
use ptf.Transaction.{QueueOps}
use ptf.Socket.{TcpEvent, Socket, c_string, send_msg}
use ptf.Socket.Receive.{drop_all}

-- No byte is 0.
abbrev pub NoNul : List ℕ → Type 0
NoNul [] = Unit
NoNul (c ∷ cs) = ((c == 0) ≡ false) × NoNul cs

-- The text before the first 0 is what counts.
pub c_string-append : (xs ys : List ℕ) → NoNul xs → c_string (xs ++ 0 ∷ ys) ≡ xs
unfolding c_string
c_string-append [] ys h = refl
c_string-append (c ∷ xs) ys h = rw (h.0) (ap (λ zs. c ∷ zs) (c_string-append xs ys h.1))

module _ {Buffer Q : Type 0} (ev : Evbuffer Buffer) (ops : QueueOps TcpEvent Q)
    (bytes : Buffer → List ℕ) (laws : EvbufferLaws ev bytes) (write : Buffer → Bool × Buffer) where
  -- On a socket with a base, `sendMsg` writes a buffer that holds exactly the content up to its first
  -- 0, whatever an earlier call left behind, and its result is true exactly if the write failed.
  pub send_msg-c_string :
      (xs ys : List ℕ) (s : Socket Buffer Q)
      → s.has_base ≡ true
      → NoNul xs
      → (b : Buffer) × (bytes b ≡ xs)
        × (send_msg ev ops write (xs ++ 0 ∷ ys) s
            ≡ (not (write b).0, record s { writebuff = (write b).1 }))
  unfolding send_msg
  send_msg-c_string xs ys s base h = (
    ev.add (ev.drain s.writebuff (ev.get_length s.writebuff)).1 xs,
    laws.add-bytes (ev.drain s.writebuff (ev.get_length s.writebuff)).1 xs
        ∙ ap (λ zs. zs ++ xs) emptied,
    rw (base, c_string-append xs ys h),
  )
    where
      emptied : bytes (ev.drain s.writebuff (ev.get_length s.writebuff)).1 ≡ []
      emptied =
          laws.drain-bytes s.writebuff (ev.get_length s.writebuff)
          ∙ rw (laws.get_length-bytes s.writebuff) (drop_all (bytes s.writebuff))
