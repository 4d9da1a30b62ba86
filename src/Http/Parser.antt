-- ===== src/Http/Parser.antt =====
-- `httpparser::parse` of src/httpparser.C.
pub mod Lines
pub mod RequestLine
pub mod Whole
use ptf.Prelude.{
  ℕ, zero, suc, ◌+◌, ◌-◌, Bool, true, false, Option, none, some, List, [], ◌∷◌, length,
  if◌then◌else◌,
}
use ptf.Http.Text.{Text, find, substr}
use ptf.Http.Headers.{Headers, insert}

abbrev pub newline : ℕ
newline = 10

abbrev pub space : ℕ
space = b' '

abbrev pub colon : ℕ
colon = b':'

-- `httpparser`
pub record Request : Type 0 where
  pub method : Text  -- `m_type`
  pub url : Text
  pub headers : Headers

abbrev pub fresh : Request
fresh = record { method = []; url = []; headers = [] }

-- `none` is the exception `out_of_range`, which nobody catches.
infixl 5 ◌>>=◌
abbrev pub ◌>>=◌ {ℓ κ} : {A : Type ℓ} {B : Type κ} → Option A → (A → Option B) → Option B
none >>= f = none
some a >>= f = f a

-- The first line: what stands before the first space, and before the second. The length of the URL
-- counts from the first space, so that it takes in the second.
unfoldable pub request_line : Text → Request → Option Request
request_line header q = elim (find space header 0) [
  | none ↦ some q
  | some pos4 ↦ (do
    method ← substr header 0 (some pos4)
    elim (find space header (pos4 + 1)) [
      | none ↦ some (record q { method = method })
      | some pos5 ↦ (do
        url ← substr header (pos4 + 1) (some (pos5 - pos4))
        some (record q { method = method; url = url }))
    ])
]

-- The body of the loop: a line without a colon is skipped.
unfoldable pub header_line : Text → Request → Option Request
header_line line q = elim (find colon line 0) [
  | none ↦ some q
  | some pos3 ↦ (do
    key ← substr line 0 (some pos3)
    value ← substr line (pos3 + 2) (some (length line - pos3))
    some (record q { headers = insert key value q.headers }))
]

-- The loop over the lines that a newline ends, from `pos1` on. `none` is also out of fuel.
unfoldable pub header_loop : ℕ → Text → ℕ → Request → Option Request
header_loop zero str pos1 q = none
header_loop (suc fuel) str pos1 q = elim (find newline str pos1) [
  | none ↦ some q
  | some pos2 ↦ (do
    line ← substr str pos1 (some (pos2 - pos1))
    q' ← header_line line q
    header_loop fuel str (pos2 + 1) q')
]

-- `npos + 1` is 0: a text without a newline is searched again, in vain.
abbrev pub after : Option ℕ → ℕ
after none = 0
after (some p) = p + 1

unfoldable pub parse : Text → Request → Option Request
parse str q =
    let pos2 = find newline str 0 in
    do
      header ← substr str 0 pos2
      q' ← request_line header q
      header_loop (length str + 1) str (after pos2) q'
