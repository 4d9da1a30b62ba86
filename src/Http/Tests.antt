-- ===== src/Http/Tests.antt =====
-- Concrete requests and responses.
use ptf.Evbuffer.Lists.{list_buffer, list_laws}
use ptf.Http.Frame.{receive_http_response, chunks, sized}
use ptf.Http.Frame.Extent.{receive-le-length}
use ptf.Prelude.{ℕ, ◌≤◌, ◌<◌, length, ◌≡◌, refl, false, some, List, [], ◌∷◌}
use ptf.Http.Text.{Text, find, find_from, substr, has}
use ptf.Http.Headers.{Headers, insert, compare_text, IsSorted}
use ptf.Http.Parser.{newline, space, colon, fresh, request_line, header_line, header_loop, parse}
use ptf.Http.Parser.Whole.{Field, enter, parse-request}

abbrev get_text : Text
get_text = b'G' ∷ b'E' ∷ b'T' ∷ []

abbrev url_text : Text
url_text = b'/' ∷ b'a' ∷ []

abbrev version_text : Text
version_text = b'H' ∷ b'T' ∷ []

no_colon_Ho : has colon (b'H' ∷ b'o' ∷ []) ≡ false
unfolding has
no_colon_Ho = refl

no_colon_Ac : has colon (b'A' ∷ b'c' ∷ []) ≡ false
unfolding has
no_colon_Ac = refl

abbrev host_field : Field
host_field = record {
  key = b'H' ∷ b'o' ∷ [];
  gap = space;
  value = b'x' ∷ [];
  no_colon = no_colon_Ho;
}

abbrev accept_field : Field
accept_field = record {
  key = b'A' ∷ b'c' ∷ [];
  gap = space;
  value = b'*' ∷ [];
  no_colon = no_colon_Ac;
}

-- "GET /a HT", "Ho: x", "Ac: *", each with its newline.
abbrev request_text : Text
request_text =
    b'G' ∷ b'E' ∷ b'T' ∷ space ∷ b'/' ∷ b'a' ∷ space ∷ b'H' ∷ b'T' ∷ newline ∷ b'H' ∷ b'o' ∷ colon
    ∷ space ∷ b'x' ∷ newline ∷ b'A' ∷ b'c' ∷ colon ∷ space ∷ b'*' ∷ newline ∷ []

abbrev sorted_headers : Headers
sorted_headers = (b'A' ∷ b'c' ∷ [], b'*' ∷ []) ∷ (b'H' ∷ b'o' ∷ [], b'x' ∷ []) ∷ []

parse-request_example :
    (parse request_text fresh
      ≡ some (record {
        method = get_text;
        url = b'/' ∷ b'a' ∷ space ∷ [];
        headers = enter (host_field ∷ accept_field ∷ []) [];
      }))
    × IsSorted (enter (host_field ∷ accept_field ∷ []) [])
unfolding has
parse-request_example =
    parse-request get_text url_text version_text (host_field ∷ accept_field ∷ []) [] refl refl
      (refl, (refl, (refl, tt))) refl

enter_sorts : enter (host_field ∷ accept_field ∷ []) [] ≡ sorted_headers
unfolding enter insert compare_text
enter_sorts = refl

parse-request_text :
    parse request_text fresh
    ≡ some (record { method = get_text; url = b'/' ∷ b'a' ∷ space ∷ []; headers = sorted_headers })
unfolding parse request_line header_line header_loop find find_from substr insert compare_text
parse-request_text = refl

-- "A", "chunked" and the end of the header, the last chunk, and one byte of the next response.
abbrev chunked_response : List ℕ
chunked_response =
    b'A' ∷ b'c' ∷ b'h' ∷ b'u' ∷ b'n' ∷ b'k' ∷ b'e' ∷ b'd' ∷ 13 ∷ 10 ∷ 13 ∷ 10 ∷ b'z' ∷ 13 ∷ 10 ∷ 48
    ∷ 13 ∷ 10 ∷ 13 ∷ 10 ∷ b'y' ∷ []

receive-le-length_example : (0 < 20) × (20 ≤ length chunked_response)
unfolding receive_http_response chunks sized list_buffer
receive-le-length_example =
    receive-le-length list_buffer (λ b. b) list_laws chunked_response 20 refl
