-- ===== src/Evbuffer/Lists.antt =====
-- An `Evbuffer` over plain lists, which shows that the documented behaviour can be had.
use ptf.Prelude.{
  ℕ, zero, suc, ◌+◌, ◌≡◌, refl, sym, ap, ◌∙◌, inl, inr, Bool, true, false, Bool-cases, ◌&&◌, Option,
  none, some, List, [], ◌∷◌, ◌++◌, arith, length, take, drop, ◌==◌, if◌then◌else◌,
}
use ptf.Evbuffer.{Evbuffer, EvbufferLaws}

starts_with : List ℕ → List ℕ → Bool
starts_with [] xs = true
starts_with (c ∷ cs) [] = false
starts_with (c ∷ cs) (x ∷ xs) = (c == x) && starts_with cs xs

starts_with-take : (cs xs : List ℕ) → starts_with cs xs ≡ true → take (length cs) xs ≡ cs
unfolding starts_with
starts_with-take [] xs h = refl
starts_with-take (c ∷ cs) [] h = absurd (cc)
starts_with-take (c ∷ cs) (x ∷ xs) h = ground (arith, starts_with-take cs xs)

-- The first place, counted from `i`, at which the text stands.
search_from : List ℕ → ℕ → List ℕ → Option ℕ
unfolding starts_with
search_from cs i [] = if starts_with cs [] then some i else none
search_from cs i (x ∷ xs) = if starts_with cs (x ∷ xs) then some i else search_from cs (i + 1) xs

-- What a result of `search_from` says.
abbrev Found : List ℕ → ℕ → List ℕ → ℕ → Type 0
Found cs i xs j = (k : ℕ) × (j ≡ i + k) × (take (length cs) (drop k xs) ≡ cs)

here-Found :
    (cs : List ℕ) (i : ℕ) (xs : List ℕ) {j : ℕ}
    → starts_with cs xs ≡ true
    → Option.some i ≡ some j
    → Found cs i xs j
here-Found cs i xs t e = (0, ground arith, starts_with-take cs xs t)

search_from-Found :
    (cs : List ℕ) (i : ℕ) (xs : List ℕ) {j : ℕ} → search_from cs i xs ≡ some j → Found cs i xs j
unfolding search_from
search_from-Found cs i [] h = elim (Bool-cases (starts_with cs [])) [
  | inl t ↦ here-Found cs i [] t (rw t at h)
  | inr f ↦ absurd (cc (rw f at h))
]
search_from-Found cs i (x ∷ xs) h = elim (Bool-cases (starts_with cs (x ∷ xs))) [
  | inl t ↦ here-Found cs i (x ∷ xs) t (rw t at h)
  | inr f ↦
      let (k, e, t) = search_from-Found cs (i + 1) xs (rw f at h) in (suc k, omega (arith, e), t)
]

drop-eq : {m n : ℕ} (xs : List ℕ) → m ≡ n → drop m xs ≡ drop n xs
drop-eq xs e = ap (λ k. drop k xs) e

drop-nil : (n : ℕ) → drop {A = ℕ} n [] ≡ []
drop-nil zero = refl
drop-nil (suc n) = refl

drop-drop : (n k : ℕ) (xs : List ℕ) → drop k (drop n xs) ≡ drop (n + k) xs
drop-drop zero k xs = drop-eq {m = k} {n = 0 + k} xs (omega arith)
drop-drop (suc n) k [] = drop-nil k ∙ sym (drop-nil (suc n + k))
drop-drop (suc n) k (x ∷ xs) =
    drop-drop n k xs ∙ drop-eq {m = suc (n + k)} {n = suc n + k} (x ∷ xs) (omega arith)

unfoldable pub list_buffer : Evbuffer (List ℕ)
unfolding search_from
list_buffer = record {
  new = [];
  get_length = λ b. length b;
  search = λ b what from. search_from what from (drop from b);
  drain = λ b n. (true, drop n b);
  remove_buffer = λ b c n. (drop n b, c ++ take n b);
  copyout = λ b n. take n b;
  add = λ b t. b ++ t;
}

pub list_laws : EvbufferLaws list_buffer (λ b. b)
unfolding list_buffer
list_laws = record {
  bytes-new = refl;
  get_length-bytes = λ b. refl;
  search-start = λ b what from i h. omega (arith, (search_from-Found what from (drop from b) h).1);
  search-text = λ b what from i h.
      let (k, e, t) = search_from-Found what from (drop from b) h in rw (e, ← drop-drop from k b) t;
  drain-bytes = λ b n. refl;
  remove_buffer-source = λ b c n. refl;
  remove_buffer-destination = λ b c n. refl;
  copyout-bytes = λ b n. refl;
  add-bytes = λ b t. refl;
}
