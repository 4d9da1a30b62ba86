-- ===== src/Http/Frame.antt =====
-- src/protocol.h, src/protocol.C: `TAppProtocolTable::receiveHttpResponse`, which says how many bytes of
-- a buffer the response that has come in takes up.
pub mod Extent
use ptf.Prelude.{
  ℕ, ◌+◌, ◌-◌, Bool, true, false, Option, none, some, List, [], ◌∷◌, ltb, if◌then◌else◌,
}
use ptf.Prelude.Int.{ℤ, pos, negsuc}
use ptf.Evbuffer.{Evbuffer}

-- `TAppProtocolTable`. Nothing reads or writes these fields after the constructor.
pub record Table : Type 0 where
  pub content_len : ℤ
  pub chunk_or_not : Bool
  pub header_len : ℤ
  pub find_content_length : Bool
  pub finish : Bool

abbrev pub new_table : Table
new_table = record {
  content_len = negsuc 0;
  chunk_or_not = false;
  header_len = pos 0;
  find_content_length = false;
  finish = false;
}

abbrev pub crlf : List ℕ
crlf = 0x0d ∷ 0x0a ∷ []

-- The line that separates headers and body.
abbrev pub header_mark : List ℕ
header_mark = 0x0d ∷ 0x0a ∷ 0x0d ∷ 0x0a ∷ []

-- "Content-Length"
abbrev pub content_length_mark : List ℕ
content_length_mark =
    b'C' ∷ b'o' ∷ b'n' ∷ b't' ∷ b'e' ∷ b'n' ∷ b't' ∷ b'-' ∷ b'L' ∷ b'e' ∷ b'n' ∷ b'g' ∷ b't' ∷ b'h'
    ∷ []

-- "chunked"
abbrev pub chunked_mark : List ℕ
chunked_mark = b'c' ∷ b'h' ∷ b'u' ∷ b'n' ∷ b'k' ∷ b'e' ∷ b'd' ∷ []

-- The end of the last chunk: "\r\n0\r\n\r\n".
abbrev pub last_chunk : List ℕ
last_chunk = 0x0d ∷ 0x0a ∷ 0x30 ∷ 0x0d ∷ 0x0a ∷ 0x0d ∷ 0x0a ∷ []

-- The tests `pos > 0` on the result of a search.
abbrev pub positive : Option ℕ → Bool
positive none = false
positive (some p) = ltb 0 p

abbrev pub or_zero : Option ℕ → ℕ
or_zero none = 0
or_zero (some p) = p

module _ {Buffer : Type 0} (ev : Evbuffer Buffer) where
  -- The branch for a response with a Content-Length, whose mark is at `p`.
  unfoldable pub sized : Buffer → ℕ → ℤ
  sized b p = if positive (ev.search b crlf p) then pos 1 else negsuc 0

  -- The branch for a response that comes in chunks.
  unfoldable pub chunks : Buffer → ℤ
  chunks b = elim (ev.search b last_chunk 0) [ none ↦ negsuc 0 | some len ↦ pos (len + 7) ]

  -- `receiveHttpResponse`; `none` is a NULL buffer.
  unfoldable pub receive_http_response : Option Buffer → ℤ
  receive_http_response none = negsuc 0
  receive_http_response (some b) = elim (ev.search b header_mark 0) [
    | none ↦ negsuc 0
    | some _ ↦
        (let not_chunk = ev.search b content_length_mark 0 in
          if positive not_chunk
          then sized b (or_zero not_chunk)
          else if positive (ev.search b chunked_mark 0)
          then chunks b
          else negsuc 0)
  ]
