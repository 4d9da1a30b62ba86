-- ===== src/Pool/Task.antt =====
-- `TTaskInfo`, `startTask`, `stopTask`, `runTask` and the timer callback of src/mptthreadpool.C: what they do to the
-- task, and which transactions they start, on a worker where each `onEvent` and each report to redis returns
-- and no sum is too large for an `int`. Running has them with these calls, and Overflow has the sums.
pub mod Budget
pub mod Overflow
pub mod Endless
pub mod Binding
pub mod OwnConnection
pub mod Running
use ptf.Prelude.{
  ℕ, zero, suc, Bool, true, false, not, ◌&&◌, Option, none, some, List, [], ◌∷◌, ◌++◌, ◌==◌,
  if◌then◌else◌,
}
use ptf.Prelude.Int.{ℤ, pos, pos_part, ◌+ℤ◌, ◌-ℤ◌, ltb_ℤ}
use ptf.Event.{EventType}

pub record TaskInfo : Type 0 where
  pub script : ℕ
  pub tps : ℤ
  pub total : ℤ
  pub duration : ℤ
  pub n_count : ℤ
  pub n_secs : ℤ
  pub stop_flag : Bool
  pub kind : EventType

-- `TTaskInfo::TTaskInfo`
abbrev pub new_task : TaskInfo
new_task = record {
  script = 0;
  tps = pos 0;
  total = pos 0;
  duration = pos 0;
  n_count = pos 0;
  n_secs = pos 0;
  stop_flag = false;
  kind = EventType.undefined;
}

-- `m_script->m_protocol`, as far as `runTask` tells it apart
pub data Protocol : Type 0 where
  tcp http other_protocol : Protocol

-- `cps_map`, from thread to connection. Its `operator[]` enters NULL under a missing key.
abbrev pub ConnectionMap : Type 0
ConnectionMap = List (ℕ × ℕ)

unfoldable pub find : ℕ → ConnectionMap → Option ℕ
find k [] = none
find k ((j, c) ∷ m) = if j == k then some c else find k m

pub at : ℕ → ConnectionMap → ℕ × ConnectionMap
unfolding find
at k m = elim (find k m) [ none ↦ (0, (k, 0) ∷ m) | some c ↦ (c, m) ]

-- A transaction that `runTask` made and started, with the connection that it was put on: by
-- `CSocket::setTransation`, by `CHttpConnection::m_tTransation`, or none.
pub data Bound : Type 0 where
  unbound : Bound
  on_socket on_http : (connection : ℕ) → Bound

pub record Launch : Type 0 where
  pub script : ℕ
  pub bound : Bound

-- The connection of a new transaction.
pub bind : Protocol → ℕ → ConnectionMap → Bound × ConnectionMap
unfolding at
bind p thread [] = (unbound, [])
bind tcp thread (e ∷ m) =
    let (c, m') = at thread (e ∷ m) in ((if c == 0 then unbound else on_socket c), m')
bind http thread (e ∷ m) =
    let (c, m') = at thread (e ∷ m) in ((if c == 0 then unbound else on_http c), m')
bind other_protocol thread (e ∷ m) = (unbound, e ∷ m)

-- The `for` loop of `runTask`, with the rounds that are left.
pub launch : ℕ → Protocol → ℕ → ℕ → ConnectionMap → List Launch × ConnectionMap
launch zero p script thread m = ([], m)
launch (suc n) p script thread m =
    let (b, m') = bind p thread m in
    let (ls, m'') = launch n p script thread m' in (record { script = script; bound = b } ∷ ls, m'')

-- How many transactions `runTask` starts, and whether the task goes on.
pub plan : TaskInfo → ℤ × Bool
plan ti =
    if ltb_ℤ (pos 0) ti.total
    then (let left =
          if ltb_ℤ ti.total (ti.n_count +ℤ ti.tps) then ti.total -ℤ ti.n_count else ti.tps in
        (left, ltb_ℤ (pos 0) left))
    else (ti.tps, not (ltb_ℤ (pos 0) ti.duration && ltb_ℤ ti.duration (ti.n_secs +ℤ pos 1)))

-- `runTask`: the result, the task, what it started, and `cps_map`.
pub run_task :
    Protocol → ℕ → TaskInfo → ConnectionMap → Bool × TaskInfo × List Launch × ConnectionMap
run_task p thread ti m =
    let (n, goes_on) = plan ti in
    if goes_on
    then (let (ls, m') = launch (pos_part n) p ti.script thread m in
        (true, record ti { n_count = ti.n_count +ℤ n; duration = ti.duration +ℤ pos 1 }, ls, m'))
    else (false, ti, [], m)

-- `startTask`; its result says whether it set the timer. Fields that it does not write keep what an
-- earlier task left.
pub start_task :
    Protocol
    → ℕ
    → (script : ℕ) (tps total duration : ℤ) → TaskInfo
    → ConnectionMap
    → Bool × TaskInfo × List Launch × ConnectionMap
start_task p thread script tps total duration ti = run_task p thread (record ti {
  script = script;
  tps = tps;
  total = total;
  duration = duration;
  n_count = pos 0;
  n_secs = pos 0;
})

-- `stopTask`
pub stop_task : ℕ → TaskInfo → Bool × TaskInfo
stop_task script ti =
    if ti.script == script then (true, record ti { stop_flag = true }) else (false, ti)

-- `time_cb`, called again and again while it sets the timer anew; `none` means that the fuel ran out
-- with the timer still set. The list has every transaction started.
pub timer_loop :
    ℕ → Protocol → ℕ → TaskInfo → ConnectionMap → Option (TaskInfo × List Launch × ConnectionMap)
timer_loop zero p thread ti m = none
timer_loop (suc fuel) p thread ti m =
    let (again, ti', ls, m') = run_task p thread ti m in
    let rest = timer_loop fuel p thread ti' m' in
    if again
    then elim rest [ none ↦ none | some (ti'', ls', m'') ↦ some (ti'', ls ++ ls', m'') ]
    else some (ti', ls, m')
