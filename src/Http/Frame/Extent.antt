-- ===== src/Http/Frame/Extent.antt =====
-- What the results of `receiveHttpResponse` in src/protocol.C mean for the bytes of the buffer.
use ptf.Prelude.{
  ℕ, ◌+◌, ◌≤◌, ◌<◌, ◌≡◌, ap, true, false, some, Bool-cases, inl, inr, List, arith, length,
  length-drop, length-take, take, drop,
}
use ptf.Prelude.Int.{pos}
use ptf.Evbuffer.{Evbuffer, EvbufferLaws}
use ptf.Http.Frame.{
  header_mark, content_length_mark, chunked_mark, last_chunk, positive, sized, chunks,
  receive_http_response,
}

-- A text that stands at a place of a list fits behind that place.
fits_behind :
    (what xs : List ℕ) (i : ℕ)
    → take (length what) (drop i xs) ≡ what
    → 0 < length what
    → i + length what ≤ length xs
fits_behind what xs i e h =
    omega (arith, ap length e, length-take (length what) (drop i xs), length-drop i xs)

module _ {Buffer : Type 0} (ev : Evbuffer Buffer) (bytes : Buffer → List ℕ)
    (laws : EvbufferLaws ev bytes) where
  chunks-found :
      (b : Buffer) (n : ℕ)
      → positive (ev.search b content_length_mark 0) ≡ false
      → receive_http_response ev (some b) ≡ pos n
      → (positive (ev.search b chunked_mark 0) ≡ true)
        × ((len : ℕ) × (ev.search b last_chunk 0 ≡ some len) × (n ≡ len + 7))
  unfolding receive_http_response chunks
  chunks-found b n no_length e = ground arith

  header-found :
      (b : Buffer) (n : ℕ)
      → receive_http_response ev (some b) ≡ pos n
      → (i : ℕ) × (ev.search b header_mark 0 ≡ some i)
  unfolding receive_http_response
  header-found b n e = ground arith

  -- Of a response with a Content-Length one byte is taken, whatever length it states, if any is.
  pub receive-sized :
      (b : Buffer) (n : ℕ)
      → positive (ev.search b content_length_mark 0) ≡ true
      → receive_http_response ev (some b) ≡ pos n
      → n ≡ 1
  unfolding receive_http_response sized
  receive-sized b n has_length e = ground arith

  -- Where receiveHttpResponse gives a length, it is not 0, and no more than the buffer holds.
  pub receive-le-length :
      (b : Buffer) (n : ℕ)
      → receive_http_response ev (some b) ≡ pos n
      → (0 < n) × (n ≤ length (bytes b))
  receive-le-length b n e = elim (Bool-cases (positive (ev.search b content_length_mark 0))) [
    | inl has_length ↦
        let one = receive-sized b n has_length e in
        let (i, found) = header-found b n e in
        (omega arith, omega (arith, one, fits header_mark i found (omega arith)))
    | inr no_length ↦
        let (_, rest) = chunks-found b n no_length e in
        let (len, found, is) = rest in
        (omega arith, omega (arith, is, fits last_chunk len found (omega arith)))
  ]
    where
      fits :
          (what : List ℕ) (i : ℕ)
          → ev.search b what 0 ≡ some i
          → 0 < length what
          → i + length what ≤ length (bytes b)
      fits what i found h = fits_behind what (bytes b) i (laws.search-text b what 0 i found) h
