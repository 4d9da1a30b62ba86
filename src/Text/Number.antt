-- ===== src/Text/Number.antt =====
-- Printing a number and reading it again.
use ptf.Prelude.{
  ℕ, zero, suc, ◌+◌, ◌*◌, ◌/◌, ◌%◌, ◌^◌, ◌<◌, ◌≡◌, refl, ap, ◌∙◌, true, false, inl, inr, Bool-cases,
  [], ◌∷◌, ◌++◌, arith, ltb,
}
use ptf.Prelude.Int.{pos}
use ptf.Http.Text.{Text}
use ptf.Text.{is_digit, read_digits, int_of_digits, atoi, digits, to_string}

-- No digit stands at the head.
abbrev pub NoDigit : Text → Type 0
NoDigit [] = Unit
NoDigit (c ∷ cs) = is_digit c ≡ false

digit-is : (d : ℕ) → d < 10 → is_digit (b'0' + d) ≡ true
digit-is d h = ground arith

read_digits-stop : (n : ℕ) (rest : Text) → NoDigit rest → read_digits n rest ≡ n
unfolding read_digits
read_digits-stop n [] h = refl
read_digits-stop n (c ∷ cs) h = rw h

read_digits-digit :
    (n d : ℕ) (cs : Text) → d < 10 → read_digits n ((b'0' + d) ∷ cs) ≡ read_digits (n * 10 + d) cs
unfolding read_digits
read_digits-digit n d cs h = rw (digit-is d h) (ap (λ k. read_digits k cs) (omega arith))

-- Reading from 0 what `digits` prints is reading on behind `n`.
read_digits-digits :
    (fuel n : ℕ) (out : Text) → n < fuel → read_digits 0 (digits fuel n out) ≡ read_digits n out
unfolding digits
read_digits-digits zero n out h = absurd (omega arith)
read_digits-digits (suc fuel) n out h = elim (Bool-cases (ltb n 10)) [
  | inl small ↦
      rw small
        (read_digits-digit 0 n out (ground arith) ∙ ap (λ k. read_digits k out) (omega arith))
  | inr large ↦ rw large (
      read_digits-digits fuel (n / 10) ((b'0' + n % 10) ∷ out) (ground arith)
      ∙ read_digits-digit (n / 10) (n % 10) out (omega arith)
      ∙ ap (λ k. read_digits k out) (omega arith))
]

-- `atoi` of a text that starts with a digit reads its digits.
abbrev pub StartsWithDigit : Text → Type 0
StartsWithDigit [] = ⊥
StartsWithDigit (c ∷ cs) = is_digit c ≡ true

atoi-digit : (t : Text) → StartsWithDigit t → atoi t ≡ int_of_digits false (read_digits 0 t)
unfolding atoi
atoi-digit [] h = absurd h
atoi-digit (c ∷ cs) h = ground arith

digits-StartsWithDigit : (fuel n : ℕ) (out : Text) → n < fuel → StartsWithDigit (digits fuel n out)
unfolding digits
digits-StartsWithDigit zero n out h = absurd (omega arith)
digits-StartsWithDigit (suc fuel) n out h = elim (Bool-cases (ltb n 10)) [
  | inl small ↦ rw small (digit-is n (ground arith))
  | inr large ↦
      rw large (digits-StartsWithDigit fuel (n / 10) ((b'0' + n % 10) ∷ out) (ground arith))
]

digits-append :
    (fuel n : ℕ) (out rest : Text) → digits fuel n out ++ rest ≡ digits fuel n (out ++ rest)
unfolding digits
digits-append zero n out rest = refl
digits-append (suc fuel) n out rest = elim (Bool-cases (ltb n 10)) [
  | inl small ↦ rw small
  | inr large ↦ rw large (digits-append fuel (n / 10) ((b'0' + n % 10) ∷ out) rest)
]

int_of-fits : (n : ℕ) → n < 2 ^ 31 → int_of_digits false n ≡ pos n
int_of-fits n h = ground arith

-- A number that an `int` can hold is the same when it is printed and read again, if no digit stands behind it.
pub atoi-to_string :
    (n : ℕ) (rest : Text) → n < 2 ^ 31 → NoDigit rest → atoi (to_string n ++ rest) ≡ pos n
unfolding to_string
atoi-to_string n rest small h = rw (digits-append (suc n) n [] rest) (
    atoi-digit (digits (suc n) n rest) (digits-StartsWithDigit (suc n) n rest (omega arith))
    ∙ ap (int_of_digits false)
        (read_digits-digits (suc n) n rest (omega arith) ∙ read_digits-stop n rest h)
    ∙ int_of-fits n small)
