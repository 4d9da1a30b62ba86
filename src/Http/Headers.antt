-- ===== src/Http/Headers.antt =====
-- `std::map<string, string>` as src/httpparser.C uses it: kept in the order of the keys' bytes, and
-- `insert` does nothing for a key that is there.
use Prim.Native.Nat.{compare, Ordering}
use ptf.Prelude.{◌≡◌, refl, Option, none, some, List, [], ◌∷◌, ap, arith, ◌⊎◌, inl, inr}
use ptf.Http.Text.{Text}

-- `string::compare`
unfoldable pub compare_text : Text → Text → Ordering
compare_text [] [] = Ordering.eq
compare_text [] (y ∷ ys) = Ordering.lt
compare_text (x ∷ xs) [] = Ordering.gt
compare_text (x ∷ xs) (y ∷ ys) = elim (compare x y) [
  | Ordering.lt ↦ Ordering.lt
  | Ordering.gt ↦ Ordering.gt
  | Ordering.eq ↦ compare_text xs ys
]

abbrev pub Headers : Type 0
Headers = List (Text × Text)

unfoldable pub insert : Text → Text → Headers → Headers
insert k v [] = (k, v) ∷ []
insert k v ((j, w) ∷ m) = elim (compare_text k j) [
  | Ordering.lt ↦ (k, v) ∷ (j, w) ∷ m
  | Ordering.eq ↦ (j, w) ∷ m
  | Ordering.gt ↦ (j, w) ∷ insert k v m
]

pub lookup : Text → Headers → Option Text
lookup k [] = none
lookup k ((j, w) ∷ m) = elim (compare_text k j) [ Ordering.eq ↦ some w | _ ↦ lookup k m ]

Ordering-cases : (o : Ordering) → ((o ≡ Ordering.lt) ⊎ (o ≡ Ordering.eq)) ⊎ (o ≡ Ordering.gt)
Ordering-cases Ordering.lt = inl (inl refl)
Ordering-cases Ordering.eq = inl (inr refl)
Ordering-cases Ordering.gt = inr refl

pub compare_text-eq : (a b : Text) → compare_text a b ≡ Ordering.eq → a ≡ b
unfolding compare_text
compare_text-eq [] [] h = refl
compare_text-eq [] (y ∷ ys) h = absurd (cc)
compare_text-eq (x ∷ xs) [] h = absurd (cc)
compare_text-eq (x ∷ xs) (y ∷ ys) h = ground (arith, compare_text-eq xs ys)

pub compare_text_self : (a : Text) → compare_text a a ≡ Ordering.eq
unfolding compare_text
compare_text_self [] = refl
compare_text_self (x ∷ xs) = ground (arith, compare_text_self xs)

compare_text_swap : (a b : Text) → compare_text a b ≡ Ordering.gt → compare_text b a ≡ Ordering.lt
unfolding compare_text
compare_text_swap [] [] h = absurd (cc)
compare_text_swap [] (y ∷ ys) h = absurd (cc)
compare_text_swap (x ∷ xs) [] h = refl
compare_text_swap (x ∷ xs) (y ∷ ys) h = ground (arith, compare_text_swap xs ys)

-- Every key is below those behind it.
abbrev pub Below : Text → Headers → Type 0
Below k [] = Unit
Below k ((j, w) ∷ m) = compare_text k j ≡ Ordering.lt

abbrev pub IsSorted : Headers → Type 0
IsSorted [] = Unit
IsSorted ((j, w) ∷ m) = Below j m × IsSorted m

insert-Below :
    (i k : Text) (v : Text) (m : Headers)
    → compare_text i k ≡ Ordering.lt
    → Below i m
    → Below i (insert k v m)
unfolding insert
insert-Below i k v [] h b = h
insert-Below i k v ((j, w) ∷ m) h b = ground arith

-- `insert` keeps the keys in order, each once.
pub insert-IsSorted : (k v : Text) (m : Headers) → IsSorted m → IsSorted (insert k v m)
unfolding insert
insert-IsSorted k v [] s = (tt, tt)
insert-IsSorted k v ((j, w) ∷ m) s = elim (Ordering-cases (compare_text k j)) [
  | inl (inl lt) ↦ rw (lt, insert) (lt, s)
  | inl (inr eq) ↦ rw (eq, insert) s
  | inr gt ↦
      rw (gt, insert)
        (insert-Below j k v m (compare_text_swap k j gt) s.0, insert-IsSorted k v m s.1)
]

compare_text_trans :
    (a b c : Text)
    → compare_text a b ≡ Ordering.lt
    → compare_text b c ≡ Ordering.lt
    → compare_text a c ≡ Ordering.lt
unfolding compare_text
compare_text_trans [] [] c h k = absurd (cc)
compare_text_trans [] (y ∷ b) [] h k = absurd (cc)
compare_text_trans [] (y ∷ b) (z ∷ c) h k = refl
compare_text_trans (x ∷ a) [] c h k = absurd (cc)
compare_text_trans (x ∷ a) (y ∷ b) [] h k = absurd (cc)
compare_text_trans (x ∷ a) (y ∷ b) (z ∷ c) h k = ground (arith, compare_text_trans a b c)

-- A key below the first key is not there.
lookup-Below : (k : Text) (m : Headers) → IsSorted m → Below k m → lookup k m ≡ none
unfolding lookup
lookup-Below k [] s b = refl
lookup-Below k ((j, w) ∷ m) s b = rw (b, lookup) (lookup-Below k m s.1 (passed m s.0))
  where
    passed : (m : Headers) → Below j m → Below k m
    passed [] b' = tt
    passed ((i, u) ∷ m) b' = compare_text_trans k j i b b'

-- Under a new key the value is entered.
pub lookup-insert_new :
    (k v : Text) (m : Headers) → lookup k m ≡ none → lookup k (insert k v m) ≡ some v
unfolding lookup insert
lookup-insert_new k v [] e = rw (compare_text_self k, lookup)
lookup-insert_new k v ((j, w) ∷ m) e = ground (arith, compare_text_self k, lookup-insert_new k v m)

-- A value that is there stays, under the same key too.
pub lookup-insert_kept :
    (i k v : Text) (m : Headers) {w : Text}
    → IsSorted m
    → lookup i m ≡ some w
    → lookup i (insert k v m) ≡ some w
unfolding lookup insert
lookup-insert_kept i k v [] s e = absurd (cc)
lookup-insert_kept i k v ((j, u) ∷ m) {w} s e = elim (Ordering-cases (compare_text k j)) [
  | inl (inl lt) ↦ rw (lt, insert) (passed_over lt (Ordering-cases (compare_text i k)))
  | inl (inr eq) ↦ rw (eq, insert) e
  | inr gt ↦ rw (gt, insert) (ground (arith, lookup-insert_kept i k v m {w = w} s.1))
]
  where
    gone : compare_text k j ≡ Ordering.lt → i ≡ k → ⊥
    gone below same = cc (ap (λ t. lookup t ((j, u) ∷ m)) same, lookup-Below k ((j, u) ∷ m) s below)

    passed_over :
        compare_text k j ≡ Ordering.lt
        → ((compare_text i k ≡ Ordering.lt) ⊎ (compare_text i k ≡ Ordering.eq))
          ⊎ (compare_text i k ≡ Ordering.gt)
        → lookup i ((k, v) ∷ (j, u) ∷ m) ≡ some w
    passed_over below (inl (inl o)) = rw (o, lookup) e
    passed_over below (inl (inr o)) = absurd (gone below (compare_text-eq i k o))
    passed_over below (inr o) = rw (o, lookup) e
