-- ===== src/Redis/Tests.antt =====
-- A server as a list of keys and values, the last first.
use ptf.Prelude.{ℕ, suc, ◌≡◌, refl, Option, none, some, List, [], ◌∷◌, arith, if◌then◌else◌}
use ptf.Prelude.Int.{pos}
use ptf.Http.Text.{Text}
use ptf.Text.{codes, text_eq}
use ptf.Step.{Statistics, new_statistics}
use ptf.Script.{links_of}
use ptf.Script.Report.{sum_of}
use ptf.Redis.{Server, ServerLaws, Printer, send_to_redis}
use ptf.Redis.Reported.{on_line, read_number, send_to_redis-counts}

read : Text → List (Text × Text) → Option Text
read k [] = none
read k ((j, v) ∷ db) = if text_eq j k then some v else read k db

abbrev listed : Server (List (Text × Text))
listed = record { get = read; set = λ k v db. (k, v) ∷ db }

listed-laws : ServerLaws listed
unfolding read
listed-laws = record { get-set = λ j k v db. refl }

abbrev printer : Printer
printer = record { average = λ d n. codes "0.5"; double = λ d. codes "0.5" }

-- Two steps that have run once and twice.
abbrev runs : ℕ → Statistics
runs i = record new_statistics { total_count = suc i; success_count = suc i }

send_to_redis-counts_example :
    (db' : List (Text × Text)) × (send_to_redis listed printer 3
        (links_of 2)
        runs
        (some 0)
        (on_line [])
      ≡ some (on_line db'))
    × (read_number listed (on_line db') (codes "total_count") ≡ some (pos 3))
    × (read_number listed (on_line db') (codes "success_count") ≡ some (pos 3))
    × (read_number listed (on_line db') (codes "failure_count") ≡ some (pos 0))
unfolding sum_of
send_to_redis-counts_example =
    send_to_redis-counts listed listed-laws printer 2 runs [] (omega arith) (omega arith)
      (omega arith) (omega arith)
