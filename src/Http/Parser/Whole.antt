-- ===== src/Http/Parser/Whole.antt =====
-- `httpparser::parse` on a whole request: what a script writes down, and what comes out.
use ptf.Prelude.{ℕ, ◌≡◌, refl, ◌∙◌, false, some, List, [], ◌∷◌, ◌++◌, map}
use ptf.Http.Text.{Text, has}
use ptf.Http.Headers.{Headers, insert, IsSorted, insert-IsSorted}
use ptf.Http.Parser.{newline, space, colon, Request, fresh, parse}
use ptf.Http.Parser.Lines.{render, NoNewline, header_lines, parse-lines}
use ptf.Http.Parser.RequestLine.{request_line-space, header_line-pair}

-- A header as a script writes it: a key without a colon, the colon, one more byte, the value.
pub record Field : Type 0 where
  pub key : Text
  pub gap : ℕ
  pub value : Text
  pub no_colon : has colon key ≡ false

abbrev pub field_line : Field → Text
field_line f = f.key ++ colon ∷ f.gap ∷ f.value

-- The headers that a list of fields comes to: the first of two with one key counts.
unfoldable pub enter : List Field → Headers → Headers
enter [] m = m
enter (f ∷ fs) m = enter fs (insert f.key f.value m)

header_lines-enter :
    (fs : List Field) (q : Request)
    → header_lines (map field_line fs) q ≡ some (record q { headers = enter fs q.headers })
unfolding header_lines enter
header_lines-enter [] q = refl
header_lines-enter (f ∷ fs) q =
    rw (header_line-pair f.key f.gap f.value q f.no_colon)
      (header_lines-enter fs (record q { headers = insert f.key f.value q.headers }))

pub enter-IsSorted : (fs : List Field) (m : Headers) → IsSorted m → IsSorted (enter fs m)
unfolding enter
enter-IsSorted [] m s = s
enter-IsSorted (f ∷ fs) m s =
    enter-IsSorted fs (insert f.key f.value m) (insert-IsSorted f.key f.value m s)

-- A request line in three parts and header lines, each ended by a newline: the method and the headers
-- come out as written, the headers in the order of their keys, the URL with a space at its end. What
-- follows the last newline is ignored, so that a last header line without one is lost.
pub parse-request :
    (method url version : Text) (fs : List Field) (rest : Text)
    → has space method ≡ false
    → has space url ≡ false
    → NoNewline ((method ++ space ∷ (url ++ space ∷ version)) ∷ map field_line fs)
    → has newline rest ≡ false
    → (parse (render ((method ++ space ∷ (url ++ space ∷ version)) ∷ map field_line fs) rest) fresh
        ≡ some (record { method = method; url = url ++ space ∷ []; headers = enter fs [] }))
      × IsSorted (enter fs [])
parse-request method url version fs rest hm hu h k = (
  parse-lines (method ++ space ∷ (url ++ space ∷ version)) (map field_line fs) rest fresh h k
      ∙ rw (request_line-space method url version fresh hm hu) (
          header_lines-enter fs
            (record { method = method; url = url ++ space ∷ []; headers = [] })),
  enter-IsSorted fs [] tt,
)
