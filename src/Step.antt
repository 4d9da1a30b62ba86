-- ===== src/Step.antt =====
-- src/step.h, src/step.C: what all steps share. Times are whole microseconds, where the source has
-- the same number of seconds in floating point, and counters do not overflow.
pub mod Tally
pub mod Clock
pub mod Decode
mod Tests
use ptf.Prelude.{
  ℕ, ◌+◌, ◌-◌, ◌*◌, ◌%◌, Bool, true, false, ◌&&◌, ◌||◌, Option, none, some, List, [], ◌∷◌, ltb,
  ◌==◌, if◌then◌else◌,
}
use ptf.Prelude.Int.{ℤ, pos, ◌+ℤ◌, ltb_ℤ}
use ptf.Transaction.{StepResult, errend, succ, subreturn, nextevent}

-- `TStepType`
pub data StepType : Type 0 where
  send recv check : StepType

-- `TStepStatistics`, but for `duration_vector`, which nothing fills
pub record Statistics : Type 0 where
  pub total_count : ℕ
  pub success_count : ℕ
  pub failure_count : ℕ
  pub total_duration : ℤ
  pub success_duration : ℤ
  pub success_max : ℤ
  pub success_min : ℤ
  pub failure_duration : ℤ
  pub failure_max : ℤ
  pub failure_min : ℤ

abbrev pub new_statistics : Statistics
new_statistics = record {
  total_count = 0;
  success_count = 0;
  failure_count = 0;
  total_duration = pos 0;
  success_duration = pos 0;
  success_max = pos 0;
  success_min = pos 0;
  failure_duration = pos 0;
  failure_max = pos 0;
  failure_min = pos 0;
}

-- `struct timeval`, of a clock that has not run before 1970
pub record Timeval : Type 0 where
  pub sec : ℕ
  pub usec : ℕ

-- `timeval_subtract`: `none` is -1, with the result not written.
pub timeval_subtract : Timeval → Timeval → Option Timeval
timeval_subtract x y =
    if ltb y.sec x.sec
    then none
    else if (x.sec == y.sec) && ltb y.usec x.usec
    then none
    else if ltb y.usec x.usec
    then some (record { sec = y.sec - x.sec - 1; usec = y.usec + 1000000 - x.usec })
    else some (record { sec = y.sec - x.sec; usec = y.usec - x.usec })

-- `if (d > max) max = d` and `if (d < min) min = d`
abbrev pub raise : ℤ → ℤ → ℤ
raise max d = if ltb_ℤ max d then d else max

abbrev pub lower : ℤ → ℤ → ℤ
lower min d = if ltb_ℤ d min then d else min

-- The statistics after a run with this result and duration.
pub record_run : StepResult → ℤ → Statistics → Statistics
record_run ret d st =
    let st' : Statistics = record st {
      total_count = st.total_count + 1;
      total_duration = st.total_duration +ℤ d;
    } in
    elim ret [
      | succ ↦ record st' {
        success_count = st.success_count + 1;
        success_duration = st.success_duration +ℤ d;
        success_max = raise st.success_max d;
        success_min = lower st.success_min d;
      }
      | errend ↦ record st' {
        failure_count = st.failure_count + 1;
        failure_duration = st.failure_duration +ℤ d;
        failure_max = raise st.failure_max d;
        failure_min = lower st.failure_min d;
      }
      | _ ↦ st'
    ]

-- `step_duration`; `junk` is the duration that the unwritten `diff_time` makes, where the clock went
-- back.
pub step_duration : ℤ → Timeval → Timeval → ℤ
step_duration junk start_time end_time = elim (timeval_subtract start_time end_time) [
  | none ↦ junk
  | some t ↦ pos (t.sec * 1000000 + t.usec)
]

-- The virtual functions of a step, on the state `S` that they act on.
pub record Handlers (E S : Type 0) : Type 0 where
  pub supsend : S → S
  pub send : Option E → S → StepResult × S
  pub suprecv : S → S
  pub recv : Option E → S → StepResult × S

-- The `switch` of `TStep::run`
abbrev pub handle : {E S : Type 0} → Handlers E S → StepType → Option E → S → StepResult × S
handle h send e s = h.send e (h.supsend s)
handle h recv e s = h.recv e (h.suprecv s)
handle h check e s = (errend, s)

-- `TStep::run`
pub run :
    {E S : Type 0}
    → Handlers E S
    → StepType
    → ℤ
    → (start_time end_time : Timeval) → Option E
    → S
    → Statistics
    → StepResult × S × Statistics
run h kind junk start_time end_time e s st =
    let (ret, s') = handle h kind e s in
    (ret, s', record_run ret (step_duration junk start_time end_time) st)

-- `\`, and `x` or `X`
abbrev pub escapes : ℕ → ℕ → Bool
escapes c x = (c == 92) && ((x == b'x') || (x == b'X'))

-- `pValue[i + 2] * 16 + pValue[i + 3]` as an `unsigned char`: the codes of the characters, not the
-- digits that they stand for.
abbrev pub escape_byte : ℕ → ℕ → ℕ
escape_byte h l = (h * 16 + l) % 256

-- The loop of `TStep::init` over a CDATA section. Behind the text stands its 0, and then `junk`, which
-- an escape at the very end reads too.
unfoldable pub decode : ℕ → List ℕ → List ℕ
decode junk [] = []
decode junk (c ∷ []) = c ∷ []
decode junk (c ∷ x ∷ []) = if escapes c x then escape_byte 0 junk ∷ [] else c ∷ x ∷ []
decode junk (c ∷ x ∷ h ∷ []) =
    let rest = decode junk (x ∷ h ∷ []) in if escapes c x then escape_byte h 0 ∷ [] else c ∷ rest
decode junk (c ∷ x ∷ h ∷ l ∷ cs) = elim (escapes c x) [
  | true ↦ escape_byte h l ∷ decode junk cs
  | false ↦ c ∷ decode junk (x ∷ h ∷ l ∷ cs)
]
