-- ===== src/Http/Parser/RequestLine.antt =====
-- What `httpparser::parse` makes of one request line and of one header line.
use ptf.Prelude.{
  ℕ, ◌+◌, ◌-◌, ◌≤◌, ◌≡◌, refl, ap, ◌∙◌, false, none, some, [], ◌∷◌, ◌++◌, append_assoc, arith,
  length, length-append,
}
use ptf.Http.Text.{
  Text, find, substr, has, find-append, find-none, substr-append, substr-all, substr-none,
}
use ptf.Http.Headers.{insert}
use ptf.Http.Parser.{space, colon, Request, ◌>>=◌, request_line, header_line}

-- The lemmas on `find` and `substr`, for a text that is equal to one of their form.
find_at :
    (c : ℕ) {str : Text} {pos : ℕ} (before xs ys : Text)
    → str ≡ before ++ (xs ++ c ∷ ys)
    → pos ≡ length before
    → has c xs ≡ false
    → find c str pos ≡ some (pos + length xs)
find_at c before xs ys e p h = rw (e, p) (find-append c before xs ys h)

substr_at :
    {str : Text} {pos : ℕ} (before xs ys : Text) (k : ℕ)
    → str ≡ before ++ (xs ++ ys)
    → pos ≡ length before
    → k ≡ length xs
    → substr str pos (some k) ≡ some xs
substr_at before xs ys k e p h = rw (e, p) (substr-append before xs ys k h)

-- A count that reaches to the end or beyond takes the rest.
substr_over :
    {str : Text} {pos : ℕ} (before xs : Text) (k : ℕ)
    → str ≡ before ++ xs
    → pos ≡ length before
    → length xs ≤ k
    → substr str pos (some k) ≡ some xs
substr_over before xs k e p h = rw (e, p) (substr-all before xs k h)

-- A request line in three parts: the method comes out as written, but the URL comes out with the
-- space that ends it.
pub request_line-space :
    (method url version : Text) (q : Request)
    → has space method ≡ false
    → has space url ≡ false
    → request_line (method ++ space ∷ (url ++ space ∷ version)) q
      ≡ some (record q { method = method; url = url ++ space ∷ [] })
unfolding request_line
request_line-space method url version q hm hu =
    rw (first_space, request_line) (rw (cut_method, second_space, cut_url))
  where
    str : Text
    str = method ++ space ∷ (url ++ space ∷ version)

    first_space : find space str 0 ≡ some (length method)
    first_space =
        find_at space [] method (url ++ space ∷ version) refl refl hm ∙ ap some (omega arith)

    cut_method : substr str 0 (some (length method)) ≡ some method
    cut_method =
        substr_at [] method (space ∷ (url ++ space ∷ version)) (length method) refl refl refl

    behind : length method + 1 ≡ length (method ++ space ∷ [])
    behind = omega (arith, length-append method (space ∷ []))

    second_space : find space str (length method + 1) ≡ some (length method + 1 + length url)
    second_space = find_at space (method ++ space ∷ []) url version (simp append_assoc) behind hu

    cut_url :
        substr str (length method + 1) (some (length method + 1 + length url - length method))
        ≡ some (url ++ space ∷ [])
    cut_url =
        substr_at (method ++ space ∷ []) (url ++ space ∷ []) version
          (length method + 1 + length url - length method) (simp append_assoc) behind
          (omega (arith, length-append url (space ∷ [])))

-- What a header line with a colon comes to.
header_line-found :
    (key rest : Text) (q : Request)
    → has colon key ≡ false
    → header_line (key ++ colon ∷ rest) q ≡ (
        substr
          (key ++ colon ∷ rest)
          (length key + 2)
          (some (length (key ++ colon ∷ rest) - length key))
        >>= λ value. some (record q { headers = insert key value q.headers }))
unfolding header_line
header_line-found key rest q h = rw (at_colon, header_line) (rw cut_key)
  where
    at_colon : find colon (key ++ colon ∷ rest) 0 ≡ some (length key)
    at_colon = find_at colon [] key rest refl refl h ∙ ap some (omega arith)

    cut_key : substr (key ++ colon ∷ rest) 0 (some (length key)) ≡ some key
    cut_key = substr_at [] key (colon ∷ rest) (length key) refl refl refl

-- `key: value` enters the value under the key.
pub header_line-pair :
    (key : Text) (gap : ℕ) (value : Text) (q : Request)
    → has colon key ≡ false
    → header_line (key ++ colon ∷ gap ∷ value) q
      ≡ some (record q { headers = insert key value q.headers })
header_line-pair key gap value q h =
    header_line-found key (gap ∷ value) q h
    ∙ rw (
        substr_over {str = key ++ colon ∷ gap ∷ value} {pos = length key + 2}
          (key ++ colon ∷ gap ∷ []) value (length (key ++ colon ∷ gap ∷ value) - length key)
          (simp append_assoc) (omega (arith, length-append key (colon ∷ gap ∷ [])))
          (omega (arith, length-append key (colon ∷ gap ∷ value))))

-- A line without a colon is skipped.
pub header_line-skip :
    (line : Text) (q : Request) → has colon line ≡ false → header_line line q ≡ some q
unfolding header_line
header_line-skip line q h = rw (find-none colon [] line h, header_line)

-- A line that ends with its first colon throws: the value would start behind its end.
pub header_line-throws :
    (key : Text) (q : Request) → has colon key ≡ false → header_line (key ++ colon ∷ []) q ≡ none
header_line-throws key q h =
    header_line-found key [] q h
    ∙ rw (
        substr-none (key ++ colon ∷ []) (length key + 2) _
          (omega (arith, length-append key (colon ∷ []))))
