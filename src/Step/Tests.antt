-- ===== src/Step/Tests.antt =====
-- Clocks, runs and texts of src/step.C.
use ptf.Prelude.{ℕ, ◌≡◌, ◌≢◌, refl, some, [], ◌∷◌, arith}
use ptf.Prelude.Int.{pos}
use ptf.Transaction.{succ, errend}
use ptf.Step.{new_statistics, Timeval, timeval_subtract, record_run, decode}
use ptf.Step.Tally.{History, record_all}
use ptf.Step.Decode.{decode-digits}

-- 0.9 seconds and 1.2 seconds after some second.
abbrev early : Timeval
early = record { sec = 7; usec = 900000 }

abbrev late : Timeval
late = record { sec = 8; usec = 200000 }

subtract_borrows : timeval_subtract early late ≡ some (record { sec = 0; usec = 300000 })
unfolding timeval_subtract
subtract_borrows = refl

-- Two runs that succeed, in 30 and in 50, and one that fails, in 20.
abbrev three_runs : History
three_runs = (succ, pos 30) ∷ (errend, pos 20) ∷ (succ, pos 50) ∷ []

three_runs_max : (record_all three_runs new_statistics).success_max ≡ pos 50
unfolding record_all record_run
three_runs_max = refl

-- The escape of 0x41, the letter A, comes out as the letter q.
decode_q : decode 99 (92 ∷ b'x' ∷ 52 ∷ 49 ∷ b'z' ∷ []) ≡ b'q' ∷ b'z' ∷ []
unfolding decode
decode_q = refl

decode-digits_example :
    (decode 99 (92 ∷ b'x' ∷ 52 ∷ 49 ∷ b'z' ∷ []) ≡ 113 ∷ decode 99 (b'z' ∷ []))
    × (◌≢◌ {A = ℕ} 113 65)
decode-digits_example = decode-digits 99 4 1 (b'z' ∷ []) (omega arith) (omega arith)
