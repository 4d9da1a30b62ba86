-- ===== src/Step/Decode.antt =====
-- The escapes in the text of a step, as src/step.C takes them.
use ptf.Prelude.{
  ℕ, ◌+◌, ◌*◌, ◌%◌, ◌≤◌, ◌<◌, ◌≡◌, refl, ap, ◌≢◌, inl, inr, false, List, [], ◌∷◌, length, arith,
  Bool-cases, ◌==◌,
}
use ptf.Step.{escapes, escape_byte, decode}

-- The decoded text fits into the `length + 1` bytes that `init` allocates, its closing 0 included.
pub length-decode : (junk : ℕ) (t : List ℕ) → length (decode junk t) ≤ length t
unfolding decode
length-decode junk [] = omega arith
length-decode junk (c ∷ []) = omega arith
length-decode junk (c ∷ x ∷ []) = ground arith
length-decode junk (c ∷ x ∷ h ∷ []) = ground arith
length-decode junk (c ∷ x ∷ h ∷ l ∷ cs) = elim (Bool-cases (escapes c x)) [
  | inl e ↦ rw (e, decode) (omega (arith, length-decode junk cs))
  | inr e ↦ rw (e, decode) (omega (arith, length-decode junk (x ∷ h ∷ l ∷ cs)))
]

-- No backslash in the text.
abbrev pub Plain : List ℕ → Type 0
Plain [] = Unit
Plain (c ∷ cs) = ((c == 92) ≡ false) × Plain cs

-- A text without a backslash stays as it is.
pub decode-Plain : (junk : ℕ) (t : List ℕ) → Plain t → decode junk t ≡ t
unfolding decode
decode-Plain junk [] p = refl
decode-Plain junk (c ∷ []) p = refl
decode-Plain junk (c ∷ x ∷ []) p = rw (p.0)
decode-Plain junk (c ∷ x ∷ h ∷ []) p =
    rw (p.0) (ap (λ t. c ∷ t) (decode-Plain junk (x ∷ h ∷ []) p.1))
decode-Plain junk (c ∷ x ∷ h ∷ l ∷ cs) p =
    rw (p.0, decode) (ap (λ t. c ∷ t) (decode-Plain junk (x ∷ h ∷ l ∷ cs) p.1))

digits_off : (d e : ℕ) → d < 10 → e < 10 → escape_byte (48 + d) (48 + e) ≡ (16 * d + e + 48) % 256
digits_off d e hd he = ground arith

-- An escape of two decimal digits comes out as the byte 48 more, modulo 256, than the one that it
-- names, and never as that byte.
pub decode-digits :
    (junk d e : ℕ) (cs : List ℕ)
    → d < 10
    → e < 10
    → (decode junk (92 ∷ b'x' ∷ (48 + d) ∷ (48 + e) ∷ cs)
        ≡ ((16 * d + e + 48) % 256) ∷ decode junk cs)
      × ((16 * d + e + 48) % 256 ≢ 16 * d + e)
unfolding decode
decode-digits junk d e cs hd he =
    (ap (λ b. b ∷ decode junk cs) (digits_off d e hd he), λ same. omega (arith, same))
