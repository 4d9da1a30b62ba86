-- ===== src/Pool/Task/Overflow/Tests.antt =====
-- The arithmetic of two tasks of src/mptthreadpool.C.
use ptf.Prelude.{[], ◌∷◌, arith}
use ptf.Prelude.Int.{pos}
use ptf.Pool.Task.{new_task, tcp}
use ptf.Pool.Task.Overflow.{SumsFit, task_after, started_task, task_after-SumsFit}

task_after-SumsFit_example :
    SumsFit (task_after 5 tcp 6 (started_task 70 (pos 3) (pos 7) (pos 2) new_task) ((6, 40) ∷ []))
task_after-SumsFit_example =
    task_after-SumsFit tcp 6 5 70 3 7 2 new_task ((6, 40) ∷ []) (omega arith) (omega arith)
      (omega arith)
