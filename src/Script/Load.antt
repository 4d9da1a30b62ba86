-- ===== src/Script/Load.antt =====
-- When `init` of src/script.C loads a script.
use ptf.Prelude.{
  ◌≡◌, refl, ap, ◌∙◌, inl, inr, Bool-cases, Bool, true, false, not, ◌&&◌, ◌==◌, none, some, List,
  [], ◌∷◌, ◌++◌, append_assoc, append-nil, length, arith, if◌then◌else◌,
}
use ptf.Script.{
  Node, text_node, step_node, undefined, refused, loaded, after_delete, finish, build, init,
}
use ptf.Script.Destroy.Twice.{destroy-links_of}

module _ {S : Type 0} where
  -- Steps, each behind a text.
  abbrev pub indented : List S → List (Node S) → List (Node S)
  indented [] rest = rest
  indented (s ∷ steps) rest = text_node ∷ step_node (some s) ∷ indented steps rest

  build-indented :
      (tr : Bool) (steps so_far : List S) (rest : List (Node S))
      → build tr false (indented steps rest) so_far ≡ build tr false rest (so_far ++ steps)
  unfolding build
  build-indented tr [] so_far rest = rw (append-nil so_far)
  build-indented tr (s ∷ steps) so_far rest =
      build-indented tr steps (so_far ++ (s ∷ [])) rest ∙ rw (append_assoc so_far (s ∷ []) steps)

  -- A script of one step or more, each behind a text and with a text at the end, is loaded with its
  -- steps in order.
  pub init-loaded :
      (tr : Bool) (s : S) (steps : List S)
      → init tr (some (true, indented (s ∷ steps) (text_node ∷ []))) ≡ loaded (s ∷ steps)
  unfolding init build finish
  init-loaded tr s steps = build-indented tr steps (s ∷ []) (text_node ∷ [])

  -- If `initProperty` gives NULL for a step, and what stands before it are steps, each behind a text,
  -- `init` returns false if there is exactly one such step and no transaction is set, and its behaviour
  -- is undefined otherwise.
  pub init-refused :
      (tr : Bool) (steps : List S) (rest : List (Node S))
      → init tr (some (true, indented steps (step_node none ∷ rest)))
        ≡ (if not tr && (length steps == 1) then refused else undefined)
  unfolding init build finish
  init-refused tr steps rest =
      build-indented tr steps [] (step_node none ∷ rest) ∙ by_length tr steps
    where
      by_length :
          (tr : Bool) (steps : List S)
          → (if tr then undefined else finish true steps)
            ≡ (if not tr && (length steps == 1) then refused else undefined)
      by_length true steps = refl
      by_length false [] = refl
      by_length false (s ∷ steps) =
          ap after_delete (destroy-links_of (length (s ∷ steps)) (omega arith))
          ∙ (elim (Bool-cases (length (s ∷ steps) == 1)) [ inl one ↦ rw one | inr more ↦ rw more ])
