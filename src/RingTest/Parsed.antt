-- ===== src/RingTest/Parsed.antt =====
-- The options of src/test/test_ringbuffer.C.
use mathlib.Core.Option.{some-injective}
use ptf.Prelude.Int.{ℤ, pos, negsuc}
use ptf.Http.Text.{Text}
use ptf.Text.{atoi}
use ptf.Prelude.{
  if◌then◌else◌, ◌==◌, ℕ, ◌<◌, ◌≤◌, ◌≡◌, subst, Bool, true, false, Option, none, some, List, [],
  ◌∷◌, arith,
}
use ptf.RingTest.{read_option, read_options, at_least, Options}

-- What `main` goes on with.
abbrev pub Sane : Options → Type 0
Sane o = (1 < o.size) × (0 < o.total)

at_least-le : (least otherwise : ℕ) (z : ℤ) → least ≤ otherwise → least ≤ at_least least otherwise z
at_least-le least otherwise (negsuc n) h = h
at_least-le least otherwise (pos n) h = ground arith

abbrev Kept : Option Options → Type 0
Kept none = Unit
Kept (some o) = Sane o

if-Kept : (b : Bool) (x y : Option Options) → Kept x → Kept y → Kept (if b then x else y)
if-Kept true x y k l = k
if-Kept false x y k l = l

read_option-Kept :
    (opt : ℕ) (optarg : Text) (o : Options) → Sane o → Kept (read_option opt optarg o)
read_option-Kept opt optarg o s = if-Kept (opt == b'p') _ _ s (
    if-Kept (opt == b'c') _ _ s (
      if-Kept (opt == b's') _ _ (at_least-le 2 100 (atoi optarg) (omega arith), s.1)
        (if-Kept (opt == b't') _ _ (s.0, at_least-le 1 100 (atoi optarg) (omega arith)) tt)))

-- Whatever `getopt` finds, the program goes on with at least two slots and one number for each producer.
pub read_options-Sane :
    (opts : List (ℕ × Text)) (o : Options) {o' : Options}
    → Sane o
    → read_options opts o ≡ some o'
    → Sane o'
unfolding read_options
read_options-Sane [] o s e = subst Sane (some-injective _ _ e) s
read_options-Sane ((opt, optarg) ∷ rest) o {o'} s e =
    on_option (λ o''. read_options-Sane rest o'') (read_option opt optarg o)
      (read_option-Kept opt optarg o s) e
  where
    on_option :
        ((o'' : Options) → Sane o'' → read_options rest o'' ≡ some o' → Sane o')
        → (x : Option Options) → Kept x
        → elim x [ none ↦ none | some o'' ↦ read_options rest o'' ] ≡ some o'
        → Sane o'
    on_option again none k e' = absurd (cc (e'))
    on_option again (some o'') k e' = again o'' k e'
