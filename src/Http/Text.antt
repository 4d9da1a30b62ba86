-- ===== src/Http/Text.antt =====
-- The operations of `std::string` that src/httpparser.C calls. `npos` is `none`, and strings are
-- shorter than 2^31 bytes, so that no position is changed by a conversion to `int`.
use ptf.Prelude.{
  ℕ, zero, suc, ◌+◌, ◌≤◌, ◌<◌, ◌≡◌, refl, ap, Bool, false, ◌||◌, Option, none, some, List, [], ◌∷◌,
  ◌++◌, arith, take, drop, length, length-append, ltb, lt→ltb, ◌==◌, if◌then◌else◌,
}

abbrev pub Text : Type 0
Text = List ℕ

-- `find` of a one-byte text from the start of the list; positions are counted from `i`.
unfoldable pub find_from : ℕ → ℕ → Text → Option ℕ
find_from c i [] = none
find_from c i (x ∷ xs) = if x == c then some i else find_from c (i + 1) xs

-- `s.find(c, pos)`
unfoldable pub find : ℕ → Text → ℕ → Option ℕ
unfolding find_from
find c s pos = find_from c pos (drop pos s)

-- `s.substr(pos, n)`, which throws where `pos` is behind the end; `n` is `none` where the program
-- computes it from `npos`, so that it exceeds what is left.
unfoldable pub substr : Text → ℕ → Option ℕ → Option Text
substr s pos n =
    if ltb (length s) pos
    then none
    else some (elim n [ none ↦ drop pos s | some k ↦ take k (drop pos s) ])

-- `c` does not occur.
unfoldable pub has : ℕ → Text → Bool
has c [] = false
has c (x ∷ xs) = (x == c) || has c xs

drop-append : (xs ys : Text) → drop (length xs) (xs ++ ys) ≡ ys
drop-append [] ys = refl
drop-append (x ∷ xs) ys = drop-append xs ys

take-append : (xs ys : Text) → take (length xs) (xs ++ ys) ≡ xs
take-append [] ys = refl
take-append (x ∷ xs) ys = ap (λ zs. x ∷ zs) (take-append xs ys)

find_from-append :
    (c i : ℕ) (xs ys : Text)
    → has c xs ≡ false
    → find_from c i (xs ++ c ∷ ys) ≡ some (i + length xs)
unfolding find_from has
find_from-append c i [] ys h = ground arith
find_from-append c i (x ∷ xs) ys h = ground (arith, find_from-append c (i + 1) xs ys)

pub find_from-none : (c i : ℕ) (xs : Text) → has c xs ≡ false → find_from c i xs ≡ none
unfolding find_from has
find_from-none c i [] h = refl
find_from-none c i (x ∷ xs) h = ground (arith, find_from-none c (i + 1) xs)

-- The first `c` at or behind `pos`, if `pos` splits the text there.
pub find-append :
    (c : ℕ) (before xs ys : Text)
    → has c xs ≡ false
    → find c (before ++ (xs ++ c ∷ ys)) (length before) ≡ some (length before + length xs)
unfolding find
find-append c before xs ys h =
    rw (drop-append before (xs ++ c ∷ ys)) (find_from-append c (length before) xs ys h)

pub find-none :
    (c : ℕ) (before xs : Text) → has c xs ≡ false → find c (before ++ xs) (length before) ≡ none
unfolding find
find-none c before xs h = rw (drop-append before xs) (find_from-none c (length before) xs h)

in_range : (b r : Text) → ltb (length (b ++ r)) (length b) ≡ false
in_range b r = ground (arith, length-append b r)

-- Cutting a piece out of the middle.
pub substr-append :
    (before xs ys : Text) (k : ℕ)
    → k ≡ length xs
    → substr (before ++ (xs ++ ys)) (length before) (some k) ≡ some xs
unfolding substr
substr-append before xs ys k e =
    rw (in_range before (xs ++ ys), drop-append before (xs ++ ys), e, take-append xs ys)

pub substr-rest : (before xs : Text) → substr (before ++ xs) (length before) none ≡ some xs
unfolding substr
substr-rest before xs = rw (in_range before xs, drop-append before xs)

take_all : (xs : Text) (k : ℕ) → length xs ≤ k → take k xs ≡ xs
take_all [] zero h = refl
take_all [] (suc k) h = refl
take_all (x ∷ xs) zero h = absurd (omega arith)
take_all (x ∷ xs) (suc k) h = ap (λ ys. x ∷ ys) (take_all xs k (omega arith))

-- A count that reaches the end takes the rest.
pub substr-all :
    (before xs : Text) (k : ℕ)
    → length xs ≤ k
    → substr (before ++ xs) (length before) (some k) ≡ some xs
unfolding substr
substr-all before xs k h = rw (in_range before xs, drop-append before xs, take_all xs k h)

-- A start behind the end throws.
pub substr-none : (s : Text) (pos : ℕ) (n : Option ℕ) → length s < pos → substr s pos n ≡ none
unfolding substr
substr-none s pos n h = rw (lt→ltb (length s) pos h)
