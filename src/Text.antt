-- ===== src/Text.antt =====
-- What the program does with texts beside searching them: comparing C strings, and reading and printing
-- numbers. A text is the list of its bytes, without the 0 that ends a C string.
pub mod Number
pub mod Compare
mod Tests
use Prim.Native.Char.{code}
use Prim.Native.Nat.{min}
use Prim.Native.String.{String}
use Prim.Native.String
use ptf.Prelude.{
  ℕ, zero, suc, ◌+◌, ◌-◌, ◌*◌, ◌/◌, ◌%◌, ◌^◌, Bool, true, false, ◌&&◌, ◌||◌, List, [], ◌∷◌, ltb,
  leb, ◌==◌, if◌then◌else◌,
}
use ptf.Prelude.Int.{ℤ, pos, negsuc}
use ptf.Http.Text.{Text}

-- The bytes of a literal.
abbrev pub codes : String → Text
codes String.[] = []
codes (String.◌∷◌ c s) = code c ∷ codes s

-- `==` of `std::string`, and `0 == strcmp` and `0 == xmlStrcmp`
unfoldable pub text_eq : Text → Text → Bool
text_eq [] [] = true
text_eq [] (d ∷ ds) = false
text_eq (c ∷ cs) [] = false
text_eq (c ∷ cs) (d ∷ ds) = (c == d) && text_eq cs ds

-- `0 == strncmp`, of at most `n` bytes and no further than the end of either
unfoldable pub strncmp_eq : Text → Text → ℕ → Bool
strncmp_eq cs ds zero = true
strncmp_eq [] [] (suc n) = true
strncmp_eq [] (d ∷ ds) (suc n) = false
strncmp_eq (c ∷ cs) [] (suc n) = false
strncmp_eq (c ∷ cs) (d ∷ ds) (suc n) = (c == d) && strncmp_eq cs ds n

abbrev pub lower : ℕ → ℕ
lower c = if leb b'A' c && leb c b'Z' then c + 32 else c

-- `0 == strcasecmp`
unfoldable pub strcasecmp_eq : Text → Text → Bool
strcasecmp_eq [] [] = true
strcasecmp_eq [] (d ∷ ds) = false
strcasecmp_eq (c ∷ cs) [] = false
strcasecmp_eq (c ∷ cs) (d ∷ ds) = (lower c == lower d) && strcasecmp_eq cs ds

abbrev pub is_digit : ℕ → Bool
is_digit c = leb b'0' c && leb c b'9'

abbrev pub is_space : ℕ → Bool
is_space c = c == 32 || (leb 9 c && leb c 13)

-- The digits that a text starts with, behind the number `n`
unfoldable pub read_digits : ℕ → Text → ℕ
read_digits n [] = n
read_digits n (c ∷ cs) = if is_digit c then read_digits (n * 10 + (c - b'0')) cs else n

-- An `int` of the low 32 bits
abbrev pub int_of : ℕ → ℤ
int_of n = let k = n % 2 ^ 32 in if ltb k (2 ^ 31) then pos k else negsuc (2 ^ 32 - 1 - k)

-- The sign and the digits, as glibc takes them: a `long` that stops at its bounds, as an `int`
abbrev pub int_of_digits : (minus : Bool) → ℕ → ℤ
int_of_digits false n = int_of (min n (2 ^ 63 - 1))
int_of_digits true n = int_of (2 ^ 64 - min n (2 ^ 63))

-- `atoi`
unfoldable pub atoi : Text → ℤ
unfolding read_digits
atoi [] = pos 0
atoi (c ∷ cs) =
    let rest = atoi cs in
    if is_space c
    then rest
    else if c == b'-'
    then int_of_digits true (read_digits 0 cs)
    else if c == b'+'
    then int_of_digits false (read_digits 0 cs)
    else int_of_digits false (read_digits 0 (c ∷ cs))

-- The last digits of `n`, in front of `out`; the fuel bounds their number.
unfoldable pub digits : ℕ → ℕ → Text → Text
digits zero n out = out
digits (suc fuel) n out =
    let longer = digits fuel (n / 10) ((b'0' + n % 10) ∷ out) in
    if ltb n 10 then (b'0' + n) ∷ out else longer

-- `to_string` of a number, and a `stringstream`'s `<<`
unfoldable pub to_string : ℕ → Text
unfolding digits
to_string n = digits (suc n) n []
