-- ===== src/Script/Destroy.antt =====
-- `~TStep` of src/step.C, on the steps of a script: which steps are deleted, and whether one is deleted twice.
pub mod Twice
use ptf.Prelude.{
  ℕ, zero, suc, ◌==◌, Bool, true, false, ◌||◌, Option, none, some, List, [], ◌∷◌, if◌then◌else◌,
}
use ptf.Transaction.{Links}

-- What deleting comes to: the fuel is out, a step that is gone is deleted again, which is undefined, or these
-- steps are gone.
pub data Deletion : Type 0 where
  exhausted : Deletion
  twice : Deletion
  deleted : List ℕ → Deletion

abbrev pub member : ℕ → List ℕ → Bool
member i [] = false
member i (j ∷ js) = (j == i) || member i js

abbrev pub and_then : Deletion → (List ℕ → Deletion) → Deletion
and_then exhausted f = exhausted
and_then twice f = twice
and_then (deleted gone) f = f gone

-- `delete` of a pointer, NULL included
abbrev pub delete_if : Option ℕ → (ℕ → List ℕ → Deletion) → List ℕ → Deletion
delete_if none f gone = deleted gone
delete_if (some j) f gone = f j gone

-- `delete` of the step `i`, with the steps that are gone: the next step, the child, then the step itself.
pub destroy : ℕ → (ℕ → Links) → ℕ → List ℕ → Deletion
destroy zero links i gone = exhausted
destroy (suc fuel) links i gone =
    if member i gone
    then twice
    else and_then (delete_if (links i).next (destroy fuel links) gone) (λ gone'.
      and_then (delete_if (links i).child (destroy fuel links) gone')
        (λ gone''. deleted (i ∷ gone'')))
