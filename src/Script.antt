-- ===== src/Script.antt =====
-- src/script.h, src/script.C: how a script becomes a chain of steps, and the sums over its steps that
-- are sent to redis. The XML tree is a parameter; a step is what `initProperty` makes of its node.

pub mod Load
pub mod Report
pub mod Property
pub mod Exchange
pub mod Dialogue
pub mod Counters
pub mod Destroy
pub mod Lifetime
mod Tests
use ptf.Prelude.{
  ℕ, zero, suc, ◌+◌, ◌-◌, ◌*◌, ◌%◌, ◌^◌, Bool, true, false, Option, none, some, List, [], ◌∷◌, ◌++◌,
  length, ltb, ◌==◌, if◌then◌else◌,
}
use ptf.Prelude.Int.{ℤ, pos, ◌+ℤ◌}
use ptf.Transaction.{Links, next_step}
use ptf.Step.{Statistics}
use ptf.Script.Destroy.{Deletion, exhausted, twice, deleted, destroy}

-- A child of the root: a text, another node without a "protocol", or a node for which `initProperty`
-- makes a step or gives NULL.
pub data Node (S : Type 0) : Type 0 where
  text_node bare_node : Node S
  step_node : Option S → Node S

-- What `init` comes to: undefined behaviour, false, or true with the steps in order.
pub data Loading (S : Type 0) : Type 0 where
  undefined : Loading S
  refused : Loading S
  loaded : List S → Loading S

-- The links that `init` gives the step `i` of `n`
pub links_of : (n i : ℕ) → Links
links_of n i =
    let behind = if ltb (i + 1) n then some (i + 1) else none in
    record { next = behind; child = behind; parent = if i == 0 then none else some (i - 1) }

-- `delete m_script` behind a step that failed, and `return false`
abbrev pub after_delete : {S : Type 0} → Deletion → Loading S
after_delete exhausted = undefined
after_delete twice = undefined
after_delete (deleted gone) = refused

module _ {S : Type 0} where
  -- `initProperty`; `none` is `strcasecmp` of a missing "protocol", NULL.
  pub init_property : Node S → Option (Option S)
  init_property text_node = none
  init_property bare_node = none
  init_property (step_node o) = some o

  -- What follows the loop. With no step, `pLast` is NULL and written through. The links of the last step are
  -- NULL already. The destructor gets a round for each step.
  pub finish : (node_left : Bool) → List S → Loading S
  finish left [] = undefined
  finish true (s ∷ steps) =
      after_delete (destroy (length (s ∷ steps)) (links_of (length (s ∷ steps))) 0 [])
  finish false (s ∷ steps) = loaded (s ∷ steps)

  -- The loop, with the steps so far; `skips` says that the node before was a text and was passed over,
  -- which happens to one node at a time. Where `m_transaction` is set, a NULL step is written to.
  pub build : (has_transaction skips : Bool) → List (Node S) → List S → Loading S
  build tr skips [] steps = finish false steps
  build tr false (text_node ∷ nodes) steps = build tr true nodes steps
  build tr true (text_node ∷ nodes) steps = undefined
  build tr skips (bare_node ∷ nodes) steps = undefined
  build tr skips (step_node none ∷ nodes) steps = if tr then undefined else finish true steps
  build tr skips (step_node (some s) ∷ nodes) steps = build tr false nodes (steps ++ (s ∷ []))

  -- `init`, on what the file has: `none` for no document or root, and whether the root is named "root"
  pub init : Bool → Option (Bool × List (Node S)) → Loading S
  init tr none = refused
  init tr (some (false, nodes)) = refused
  init tr (some (true, nodes)) = build tr false nodes []

-- The sums of `m_send_st2redis`; the counts are the bits of an `int`.
pub record Summary : Type 0 where
  pub total_count : ℕ
  pub success_count : ℕ
  pub failure_count : ℕ
  pub total_duration : ℤ
  pub success_duration : ℤ
  pub success_max : ℤ
  pub success_min : ℤ
  pub failure_duration : ℤ
  pub failure_max : ℤ
  pub failure_min : ℤ

abbrev pub no_summary : Summary
no_summary = record {
  total_count = 0;
  success_count = 0;
  failure_count = 0;
  total_duration = pos 0;
  success_duration = pos 0;
  success_max = pos 0;
  success_min = pos 0;
  failure_duration = pos 0;
  failure_max = pos 0;
  failure_min = pos 0;
}

-- The body of the loop: a count is added as a `long long`, and the low 32 bits are kept. The durations of successes and failures get the counts, a second for each.
pub add_step : Summary → Statistics → Summary
add_step sum st = record {
  total_count = (sum.total_count + st.total_count) % 2 ^ 32;
  success_count = (sum.success_count + st.success_count) % 2 ^ 32;
  failure_count = (sum.failure_count + st.failure_count) % 2 ^ 32;
  total_duration = sum.total_duration +ℤ st.total_duration;
  success_duration = sum.success_duration +ℤ pos (st.success_count * 1000000);
  success_max = sum.success_max +ℤ st.success_max;
  success_min = sum.success_min +ℤ st.success_min;
  failure_duration = sum.failure_duration +ℤ pos (st.failure_count * 1000000);
  failure_max = sum.failure_max +ℤ st.failure_max;
  failure_min = sum.failure_min +ℤ st.failure_min;
}

-- The loop of `m_send_st2redis`, from the step `pre_s` on; `none` is out of fuel.
unfoldable pub report_loop :
    ℕ → (ℕ → Links) → (ℕ → Statistics) → Option ℕ → Summary → Option Summary
report_loop zero links st pre_s sum = none
report_loop (suc fuel) links st none sum = some sum
report_loop (suc fuel) links st (some i) sum =
    report_loop fuel links st (next_step (links i)) (add_step sum (st i))
