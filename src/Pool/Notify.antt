-- ===== src/Pool/Notify.antt =====
-- `order` and `threadEventProcess` of src/mptthreadpool.C: how a command reaches a worker. The queue
-- carries the command, and one byte in the worker's pipe announces it.
pub mod Delivery
pub mod Routing
use ptf.Prelude.{
  ℕ, zero, suc, ◌+◌, ◌-◌, Bool, true, false, ◌&&◌, Option, none, some, List, [], ◌∷◌, get_elem?,
  set, length, ltb, leb, ◌==◌, if◌then◌else◌,
}
use ptf.Prelude.Int.{ℤ, pos, negsuc}
use ptf.Event.{EventType, Command, start, stop, other}
use ptf.Ring.{Ring, enqueue, dequeue}
use ptf.Pool.Task.{TaskInfo, Protocol, ConnectionMap, Launch, start_task, stop_task}

-- `TThreadData`. `pipe` counts the bytes that are written and not yet read, and `timer` says whether
-- `m_timerEvent` is pending.
pub record ThreadData : Type 0 where
  pub thread_id : ℕ
  pub queue : Ring Command
  pub pipe : ℕ
  pub timer : Bool
  pub task : TaskInfo

-- The command that waits at the head of `m_queue`, and the byte, after `order`.
abbrev pub deliver : ThreadData → Ring Command → Bool → ThreadData
deliver td queue written =
    if written then record td { queue = queue; pipe = td.pipe + 1 } else record td { queue = queue }

-- `order` on the thread that `id` names. `written` is whether `write` wrote its one byte.
pub order_thread : ThreadData → Command → Bool → Bool × ThreadData
order_thread td cmd written =
    let (done, queue) = enqueue td.queue cmd in
    if done then (true, deliver td queue written) else (false, td)

-- `order`: NULL and an index outside `0 … m_nCount - 1` are refused.
pub order : List ThreadData → Option Command → ℤ → Bool → Bool × List ThreadData
order threads none id written = (false, threads)
order threads (some cmd) (negsuc n) written = (false, threads)
order threads (some cmd) (pos i) written = elim (get_elem? threads i) [
  | none ↦ (false, threads)
  | some td ↦ (let (done, td') = order_thread td cmd written in (done, set threads i td'))
]

pub data Outcome : Type 0 where
  -- Nothing to read: the callback returns at once.
  quiet : Outcome
  -- `dequeue` gave NULL and `pEvent->type()` dereferences it.
  crashed : Outcome
  handled : ThreadData → List Launch → ConnectionMap → Outcome

-- The inner `switch` of `threadEventProcess`; other event types are dropped. A start is as in Pool/Task, where
-- each `onEvent` returns.
pub dispatch : Protocol → ThreadData → Command → ConnectionMap → Outcome
dispatch p td (start script tps total duration) m =
    let (again, ti, ls, m') = start_task p td.thread_id script tps total duration td.task m in
    handled (record td { task = ti; timer = if again then true else td.timer }) ls m'
dispatch p td (stop script) m =
    let (found, ti) = stop_task script td.task in handled (record td { task = ti }) [] m
dispatch p td (other t) m = handled td [] m

-- `threadEventProcess`, called when the pipe may be readable; `junk` is as in `dequeue`.
pub process : ℕ → Protocol → ThreadData → ConnectionMap → Outcome
process junk p td m =
    if td.pipe == 0
    then quiet
    else (let (out, queue) = dequeue junk td.queue in
        elim out [
          | none ↦ crashed
          | some cmd ↦ dispatch p (record td { queue = queue; pipe = td.pipe - 1 }) cmd m
        ])
