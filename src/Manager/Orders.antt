-- ===== src/Manager/Orders.antt =====
-- How the manager sends a script to the workers: the two loops of `processHttpReq` that call `order`, and
-- `chooseWorkers`, in src/manager.C.
pub mod Received
use ptf.Prelude.{ℕ, zero, suc, ◌+◌, Bool, Option, none, some, List, [], ◌∷◌, length}
use ptf.Prelude.Int.{ℤ, pos, negsuc}
use ptf.Event.{Command, start}
use ptf.Pool.Notify.{ThreadData, order}

-- `order` of a new command to the workers `i`, …, `i + n - 1`, whose results are not looked at. `written` is
-- as in `order`, for each worker.
pub order_from : (written : ℕ → Bool) → Command → (i n : ℕ) → List ThreadData → List ThreadData
order_from written cmd i zero threads = threads
order_from written cmd i (suc n) threads =
    order_from written cmd (i + 1) n (order threads (some cmd) (pos i) (written i)).1

-- `order` to chosen workers
pub order_chosen : (written : ℕ → Bool) → Command → List ℕ → List ThreadData → List ThreadData
order_chosen written cmd [] threads = threads
order_chosen written cmd (i ∷ ids) threads =
    order_chosen written cmd ids (order threads (some cmd) (pos i) (written i)).1

-- `chooseWorkers`
abbrev pub choose_workers : ℤ × List ℕ
choose_workers = (pos 0, [])

-- The orders once workers are chosen: all of them for a result of 0. `none` is a negative result.
pub order_workers :
    (written : ℕ → Bool) → (script : ℕ) → ℤ × List ℕ → List ThreadData → Option (List ThreadData)
unfolding order_from order_chosen
order_workers written script (negsuc k, ids) threads = none
order_workers written script (pos zero, ids) threads =
    some (order_from written (start script (pos 10) (pos 50) (pos 0)) 0 (length threads) threads)
order_workers written script (pos (suc k), ids) threads =
    some (order_chosen written (start script (pos 1) (pos 25) (pos 0)) ids threads)
