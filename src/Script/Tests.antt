-- ===== src/Script/Tests.antt =====
-- A script of two steps, named 7 and 8.
use ptf.Prelude.{ℕ, ◌+◌, ◌≡◌, refl, true, false, none, some, [], ◌∷◌, arith}
use ptf.Prelude.Int.{pos, ◌+ℤ◌}
use ptf.Step.{Statistics, new_statistics}
use ptf.Script.{
  text_node, step_node, undefined, init, build, links_of, no_summary, report_loop, add_step,
}
use ptf.Script.Destroy.{twice, destroy}
use ptf.Script.Destroy.Twice.{destroy-links_of}
use ptf.Script.Load.{init-refused}

-- The third node is not a step.
init-refused_example :
    init {S = ℕ} false (
      some (
        true,
        text_node ∷ step_node (some 7) ∷ text_node ∷ step_node (some 8) ∷ step_node none ∷ [],
      ))
    ≡ undefined
init-refused_example = init-refused false (7 ∷ 8 ∷ []) []

-- Two texts in a row are one too many.
init-two_texts : init {S = ℕ} false (some (true, text_node ∷ text_node ∷ [])) ≡ undefined
unfolding init build
init-two_texts = refl

-- Each step has run as often as its number says, and one time more.
abbrev runs : ℕ → Statistics
runs i = record new_statistics { total_count = i + 1; success_count = i + 1 }

-- Three runs: their durations are not added, and three seconds stand for three successes.
report-durations :
    report_loop 3 (links_of 2) runs (some 0) no_summary
    ≡ some
        (record no_summary { total_count = 3; success_count = 3; success_duration = pos 3000000 })
unfolding report_loop links_of add_step ◌+ℤ◌
report-durations = refl

-- Of three steps, the last is deleted twice.
destroy-links_of_example : destroy 3 (links_of 3) 0 [] ≡ twice
destroy-links_of_example = destroy-links_of 3 (omega arith)
