-- ===== src/Evbuffer.antt =====
-- libevent's `evbuffer`, which src/protocol.C and src/socketpool.C call: its operations, and what its
-- documentation says of them. A buffer holds a sequence of bytes.
pub mod Lists
use ptf.Prelude.{
  ℕ, ◌+◌, ◌≤◌, ◌≡◌, Bool, true, false, Option, some, none, List, [], ◌++◌, length, take, drop,
}

pub record Evbuffer (Buffer : Type 0) : Type 0 where
  -- `evbuffer_new`
  pub new : Buffer
  -- `evbuffer_get_length`
  pub get_length : Buffer → ℕ
  -- `evbuffer_search`, with the position to start from; `none` is -1
  pub search : Buffer → List ℕ → ℕ → Option ℕ
  -- `evbuffer_drain`: whether it succeeds, and the buffer after
  pub drain : Buffer → ℕ → Bool × Buffer
  -- `evbuffer_remove_buffer`: source and destination after
  pub remove_buffer : Buffer → Buffer → ℕ → Buffer × Buffer
  -- `evbuffer_copyout` of a number of bytes
  pub copyout : Buffer → ℕ → List ℕ
  -- `evbuffer_add`
  pub add : Buffer → List ℕ → Buffer

-- The documented behaviour, in terms of the bytes that a buffer holds.
pub record EvbufferLaws {Buffer : Type 0} (ev : Evbuffer Buffer) (bytes : Buffer → List ℕ)
    : Type 0 where
  pub bytes-new : bytes ev.new ≡ []
  pub get_length-bytes : (b : Buffer) → ev.get_length b ≡ length (bytes b)
  -- A position that `search` finds is not before the start, and the text stands there.
  pub search-start :
      (b : Buffer) (what : List ℕ) (from i : ℕ) → ev.search b what from ≡ some i → from ≤ i
  pub search-text :
      (b : Buffer) (what : List ℕ) (from i : ℕ)
      → ev.search b what from ≡ some i
      → take (length what) (drop i (bytes b)) ≡ what
  -- It drops that many bytes from the front, or all.
  pub drain-bytes : (b : Buffer) (n : ℕ) → bytes (ev.drain b n).1 ≡ drop n (bytes b)
  pub remove_buffer-source :
      (b c : Buffer) (n : ℕ) → bytes (ev.remove_buffer b c n).0 ≡ drop n (bytes b)
  pub remove_buffer-destination :
      (b c : Buffer) (n : ℕ) → bytes (ev.remove_buffer b c n).1 ≡ bytes c ++ take n (bytes b)
  pub copyout-bytes : (b : Buffer) (n : ℕ) → ev.copyout b n ≡ take n (bytes b)
  pub add-bytes : (b : Buffer) (t : List ℕ) → bytes (ev.add b t) ≡ bytes b ++ t
