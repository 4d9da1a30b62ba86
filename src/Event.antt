-- ===== src/Event.antt =====
-- src/mptevent.h, src/cmdevent.h: the internal events, and the commands to a worker thread.
pub mod Objects
use ptf.Prelude.{ℕ}
use ptf.Prelude.Int.{ℤ}

-- `TEventType`
pub data EventType : Type 0 where
  http ftp_cmd ftp_data tcp_data sql_result timeout error cmd_start cmd_stop undefined : EventType

-- `TEventDirection`
pub data Direction : Type 0 where
  rx tx : Direction

-- The objects that a worker's queue holds: `TCmdStartEvent`, `TCmdStopEvent`, or an event of another
-- type. A script stands for the address of a `TScript`.
pub data Command : Type 0 where
  start : (script : ℕ) (tps total duration : ℤ) → Command
  stop : (script : ℕ) → Command
  other : EventType → Command

-- `TMPTEvent::type`, with the types that the constructors set
pub event_type : Command → EventType
event_type (start script tps total duration) = EventType.cmd_start
event_type (stop script) = EventType.cmd_stop
event_type (other t) = t
