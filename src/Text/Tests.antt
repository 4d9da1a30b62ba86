-- ===== src/Text/Tests.antt =====
-- Numbers and texts.
use ptf.Prelude.{◌≡◌, refl, true}
use ptf.Prelude.Int.{negsuc}
use ptf.Text.{codes, strcasecmp_eq, atoi, to_string}

atoi-signs : atoi (codes " -12a") ≡ negsuc 11
unfolding atoi
atoi-signs = refl

to_string-zeros : to_string 4096 ≡ codes "4096"
unfolding to_string
to_string-zeros = refl

strcasecmp_eq-case : strcasecmp_eq (codes "Http") (codes "HTTP") ≡ true
unfolding strcasecmp_eq
strcasecmp_eq-case = refl
