-- ===== src/Http/Parser/Lines.antt =====
-- The loop of `httpparser::parse`, in terms of the lines of its text.
use mathlib.Core.Path.{fun_ext}
use native.Mathlib.Numerals.{add-one}
use ptf.Prelude.{
  ℕ, zero, suc, ◌+◌, ◌-◌, ◌≤◌, ◌<◌, ◌≡◌, refl, ap, ◌∙◌, false, Option, none, some, List, [], ◌∷◌,
  ◌++◌, append_assoc, arith, length, length-append,
}
use ptf.Http.Text.{Text, find, substr, has, find-append, find-none, substr-append, substr-rest}
use ptf.Http.Parser.{newline, Request, ◌>>=◌, request_line, header_line, header_loop, parse}

-- Lines, each ended by a newline, and what follows the last newline.
abbrev pub render : List Text → Text → Text
render [] rest = rest
render (l ∷ ls) rest = l ++ newline ∷ render ls rest

abbrev pub NoNewline : List Text → Type 0
NoNewline [] = Unit
NoNewline (l ∷ ls) = (has newline l ≡ false) × NoNewline ls

-- The header lines in order; the first that throws ends it.
unfoldable pub header_lines : List Text → Request → Option Request
header_lines [] q = some q
header_lines (l ∷ ls) q = do q' ← header_line l q; header_lines ls q'

header_loop-step :
    (fuel : ℕ) (str : Text) (pos1 pos2 : ℕ) (line : Text) (q : Request)
    → find newline str pos1 ≡ some pos2
    → substr str pos1 (some (pos2 - pos1)) ≡ some line
    → header_loop (suc fuel) str pos1 q
      ≡ (header_line line q >>= λ q'. header_loop fuel str (pos2 + 1) q')
unfolding header_loop
header_loop-step fuel str pos1 pos2 line q f s = rw (f, header_loop) (rw s)

header_loop-end :
    (fuel : ℕ) (str : Text) (pos1 : ℕ) (q : Request)
    → find newline str pos1 ≡ none
    → header_loop (suc fuel) str pos1 q ≡ some q
unfolding header_loop
header_loop-end fuel str pos1 q f = rw (f, header_loop)

header_loop-lines :
    (fuel : ℕ) (str before : Text) (pos : ℕ) (ls : List Text) (rest : Text) (q : Request)
    → str ≡ before ++ render ls rest
    → pos ≡ length before
    → NoNewline ls
    → has newline rest ≡ false
    → length ls < fuel
    → header_loop fuel str pos q ≡ header_lines ls q
unfolding header_lines
header_loop-lines zero str before pos ls rest q e p h k f = absurd (omega arith)
header_loop-lines (suc fuel) str before pos [] rest q e p h k f =
    rw (e, p)
      (header_loop-end fuel (before ++ rest) (length before) q (find-none newline before rest k))
header_loop-lines (suc fuel) str before pos (l ∷ ls) rest q e p h k f =
    header_loop-step fuel str pos (length before + length l) l q
      (rw (e, p) (find-append newline before l (render ls rest) h.0))
      (rw (e, p)
        (substr-append before l (newline ∷ render ls rest)
          (length before + length l - length before) (omega arith)))
    ∙ ap (λ (g : Request → Option Request). header_line l q >>= g)
        (fun_ext λ q'.
          header_loop-lines fuel str (before ++ l ++ newline ∷ []) (length before + length l + 1) ls
            rest q' (rw e (simp append_assoc))
            (omega (arith, length-append (before ++ l) (newline ∷ []), length-append before l)) h.1
            k (omega arith))

length-render : (ls : List Text) (rest : Text) → length ls ≤ length (render ls rest)
length-render [] rest = omega arith
length-render (l ∷ ls) rest =
    omega (arith, length-append l (newline ∷ render ls rest), length-render ls rest)

-- `parse` of a first line, header lines and a rest without a newline: the first line is read as the
-- request line, and then each header line in turn. The rest is not looked at, and the loop ends.
pub parse-lines :
    (first : Text) (ls : List Text) (rest : Text) (q : Request)
    → NoNewline (first ∷ ls)
    → has newline rest ≡ false
    → parse (render (first ∷ ls) rest) q ≡ (request_line first q >>= header_lines ls)
unfolding parse
parse-lines first ls rest q h k =
    rw (at_newline, cut)
      (ap (λ (g : Request → Option Request). request_line first q >>= g)
        (fun_ext λ q'.
          header_loop-lines (length str + 1) str (first ++ newline ∷ []) (length first + 1) ls rest
            q' (simp append_assoc) (omega (arith, length-append first (newline ∷ []))) h.1 k
            (omega (arith, length-render ls rest, length-append first (newline ∷ render ls rest)))))
  where
    str : Text
    str = first ++ newline ∷ render ls rest

    at_newline : find newline str 0 ≡ some (length first)
    at_newline = find-append newline [] first (render ls rest) h.0 ∙ ap some (omega arith)

    cut : substr str 0 (some (length first)) ≡ some first
    cut = substr-append [] first (newline ∷ render ls rest) (length first) refl

-- A text without a newline has no header lines, and its whole is the request line.
pub parse-one_line :
    (first : Text) (q : Request) → has newline first ≡ false → parse first q ≡ request_line first q
unfolding parse
parse-one_line first q h = rw (at_end, substr-rest [] first) (same (request_line first q))
  where
    at_end : find newline first 0 ≡ none
    at_end = find-none newline [] first h

    same : (o : Option Request) → (o >>= header_loop (length first + 1) first 0) ≡ o
    same none = refl
    same (some q') = simp add-one (header_loop-end (length first) first 0 q' at_end)
