-- ===== src/RingTest.antt =====
-- src/test/test_ringbuffer.C: the program that tries the ring out. `getopt` is a parameter: the options that
-- it finds, each with the text behind it. An `int` of the program is below 2^31.
pub mod Parsed
pub mod InTurn
mod Tests
use ptf.Prelude.{
  ℕ, zero, suc, ◌+◌, ◌*◌, ◌^◌, Bool, not, Option, none, some, List, [], ◌∷◌, ltb, ◌==◌,
  if◌then◌else◌,
}
use ptf.Prelude.Int.{ℤ, pos, negsuc}
use ptf.Http.Text.{Text}
use ptf.Text.{atoi}
use ptf.Ring.{Ring, create, enqueue, dequeue}

-- `nP`, `nC`, `nSize` and `total`
pub record Options : Type 0 where
  pub producers : ℕ
  pub consumers : ℕ
  pub size : ℕ
  pub total : ℕ

abbrev pub defaults : Options
defaults = record { producers = 1; consumers = 1; size = 100; total = 100 }

-- A number below `least` is replaced.
abbrev pub at_least : (least otherwise : ℕ) → ℤ → ℕ
at_least least otherwise (negsuc n) = otherwise
at_least least otherwise (pos n) = if ltb n least then otherwise else n

-- The `switch` of `main`; `none` is `exit`.
abbrev pub read_option : (opt : ℕ) (optarg : Text) → Options → Option Options
read_option opt optarg o =
    if opt == b'p'
    then some (record o { producers = at_least 1 1 (atoi optarg) })
    else if opt == b'c'
    then some (record o { consumers = at_least 1 1 (atoi optarg) })
    else if opt == b's'
    then some (record o { size = at_least 2 100 (atoi optarg) })
    else if opt == b't'
    then some (record o { total = at_least 1 100 (atoi optarg) })
    else none

-- The loop over what `getopt` gives
pub read_options : List (ℕ × Text) → Options → Option Options
read_options [] o = some o
read_options ((opt, optarg) ∷ rest) o = elim (read_option opt optarg o) [
  | none ↦ none
  | some o' ↦ read_options rest o'
]

-- The ring of `main`, in memory that holds `raw`
abbrev pub new_ring : List (Option ℕ) → Options → Option (Ring ℕ)
new_ring raw o = create raw o.size (not (ltb 1 o.producers)) (not (ltb 1 o.consumers))

-- `TQData_t` of a producer, without its thread and its ring
pub record QData : Type 0 where
  pub start : ℕ
  pub total : ℕ

-- The first loop of `main`, from producer `i` on; `none` is an `i * total` that is too large for an `int`.
pub assign : (total i n : ℕ) → Option (List QData)
assign total i zero = some []
assign total i (suc n) =
    let rest = assign total (i + 1) n in
    if ltb (i * total) (2 ^ 31)
    then elim rest [
      | none ↦ none
      | some ps ↦ some (record { start = i * total; total = total } ∷ ps)
    ]
    else none

-- The loop of `producer`, with that many rounds to go, at number `n`: what it prints, and the ring after.
pub produce : (rounds n : ℕ) → Ring ℕ → List (ℕ × Bool) × Ring ℕ
produce zero n r = ([], r)
produce (suc k) n r =
    let (ret, r') = enqueue r n in
    let (lines, r'') = produce k (n + 1) r' in ((n, ret) ∷ lines, r'')

-- The producers, each after the one before has ended
pub produce_all : List QData → Ring ℕ → Ring ℕ
produce_all [] r = r
produce_all (p ∷ ps) r = produce_all ps (produce p.total p.start r).1

-- That many rounds of the loop of `consumer`, which has no end: what `dequeue` gives in each.
pub consume : (rounds junk : ℕ) → Ring ℕ → List (Option ℕ) × Ring ℕ
consume zero junk r = ([], r)
consume (suc k) junk r =
    let (out, r') = dequeue junk r in let (outs, r'') = consume k junk r' in (out ∷ outs, r'')
