-- ===== src/Text/Compare.antt =====
-- The comparisons of texts decide equality.
use ptf.Prelude.{ℕ, zero, suc, ◌<◌, ◌≡◌, refl, ap, true, ◌&&◌, [], ◌∷◌, ◌++◌, arith, length, ◌==◌}
use ptf.Http.Text.{Text}
use ptf.Text.{text_eq, strncmp_eq}

pub text_eq_self : (t : Text) → text_eq t t ≡ true
unfolding text_eq
text_eq_self [] = refl
text_eq_self (c ∷ cs) = ground (arith, text_eq_self cs)

pub eq_of_text_eq : (s t : Text) → text_eq s t ≡ true → s ≡ t
unfolding text_eq
eq_of_text_eq [] [] h = refl
eq_of_text_eq [] (d ∷ ds) h = absurd (cc)
eq_of_text_eq (c ∷ cs) [] h = absurd (cc)
eq_of_text_eq (c ∷ cs) (d ∷ ds) h = ground (arith, eq_of_text_eq cs ds)

-- A comparison of more bytes than the first text has is one of the whole texts.
pub strncmp_eq-text_eq : (s t : Text) (n : ℕ) → length s < n → strncmp_eq s t n ≡ text_eq s t
unfolding strncmp_eq text_eq
strncmp_eq-text_eq s t zero h = absurd (omega arith)
strncmp_eq-text_eq [] [] (suc n) h = refl
strncmp_eq-text_eq [] (d ∷ ds) (suc n) h = refl
strncmp_eq-text_eq (c ∷ cs) [] (suc n) h = refl
strncmp_eq-text_eq (c ∷ cs) (d ∷ ds) (suc n) h =
    ap (λ b. (c == d) && b) (strncmp_eq-text_eq cs ds n (omega arith))

-- A comparison of no more bytes than the first text has is one with the start of the second.
pub strncmp_eq-append : (s t : Text) → strncmp_eq s (s ++ t) (length s) ≡ true
unfolding strncmp_eq
strncmp_eq-append [] t = refl
strncmp_eq-append (c ∷ cs) t = ground (arith, strncmp_eq-append cs t)
