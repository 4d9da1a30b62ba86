-- ===== src/Script/Destroy/Twice.antt =====
-- What the deleting of a script's steps comes to, with the links that `init` of src/script.C gives them.
use ptf.Prelude.{
  ℕ, zero, suc, ◌+◌, ◌≤◌, ◌<◌, ◌≡◌, refl, ◌∙◌, ◌==◌, false, List, [], ◌∷◌, ltb, lt→ltb, arith,
  if◌then◌else◌,
}
use ptf.Script.{links_of}
use ptf.Script.Destroy.{Deletion, twice, deleted, and_then, destroy}

module _ (n : ℕ) where
  destroy-last : (fuel i : ℕ) → i + 1 ≡ n → destroy (suc fuel) (links_of n) i [] ≡ deleted (i ∷ [])
  unfolding destroy links_of
  destroy-last fuel i e = rw (no_more, destroy)
    where
      no_more : ltb (i + 1) n ≡ false
      no_more = ground (arith, e)

  destroy-gone : (fuel i : ℕ) (gone : List ℕ) → destroy (suc fuel) (links_of n) i (i ∷ gone) ≡ twice
  unfolding destroy
  destroy-gone fuel i gone = ground arith

  destroy-first :
      (fuel i : ℕ) (d : Deletion)
      → i + 1 < n
      → destroy fuel (links_of n) (i + 1) [] ≡ d
      → destroy (suc fuel) (links_of n) i []
        ≡ and_then d (λ gone.
          and_then (destroy fuel (links_of n) (i + 1) gone) (λ gone'. deleted (i ∷ gone')))
  unfolding destroy links_of
  destroy-first fuel i d more e = rw (lt→ltb (i + 1) n more, destroy, e)

  -- From the step `i` on, with at least one step behind it.
  destroy-twice :
      (k fuel i : ℕ) → i + k + 2 ≡ n → k + 2 ≤ fuel → destroy fuel (links_of n) i [] ≡ twice
  destroy-twice k zero i e h = absurd (omega (arith, h))
  destroy-twice k (suc zero) i e h = absurd (omega (arith, h))
  destroy-twice zero (suc (suc fuel)) i e h =
      destroy-first (suc fuel) i (deleted ((i + 1) ∷ [])) (omega (arith, e))
        (destroy-last fuel (i + 1) (omega (arith, e)))
      ∙ rw (destroy-gone fuel (i + 1) [])
  destroy-twice (suc k) (suc (suc fuel)) i e h =
      destroy-first (suc fuel) i twice (omega (arith, e))
        (destroy-twice k (suc fuel) (i + 1) (omega (arith, e)) (omega (arith, h)))

-- Deleting the first step of a script of n steps, one at least, with the links that init gives
-- them: a single step is gone then, and of two steps or more one is deleted twice, which as many
-- rounds as there are steps show.
pub destroy-links_of :
    (n : ℕ) → 0 < n → destroy n (links_of n) 0 [] ≡ (if n == 1 then deleted (0 ∷ []) else twice)
destroy-links_of zero h = absurd (omega (arith, h))
destroy-links_of (suc zero) h = destroy-last 1 0 0 refl
destroy-links_of (suc (suc k)) h =
    destroy-twice (suc (suc k)) k (suc (suc k)) 0 (omega arith) (omega arith) ∙ ground arith
