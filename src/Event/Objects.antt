-- ===== src/Event/Objects.antt =====
-- src/tcpevent.C, src/httpevent.C: the events of the protocols as objects, with the pointers that their
-- destructors release.
mod Tests
use ptf.Prelude.{ℕ, ◌+◌, Bool, Option, none, some, List, [], ◌∷◌}
use ptf.Prelude.Int.{ℤ}
use ptf.Prelude.Pointer.{Pointer, unassigned, release}
use ptf.Event.{EventType, Direction}

-- `TTCPEvent`; `none` is a field that nobody has assigned. `lost` counts the blocks that `setData` gets by
-- `malloc` and drops.
pub record TcpObject : Type 0 where
  pub kind : Option EventType
  pub direction : Option Direction
  pub data_ptr : Pointer
  pub length : Option ℤ
  pub lost : ℕ

-- The two constructors
abbrev pub new_tcp : TcpObject
new_tcp = record { kind = none; direction = none; data_ptr = unassigned; length = none; lost = 0 }

abbrev pub new_tcp_of : EventType → Direction → TcpObject
new_tcp_of kind direction = record new_tcp { kind = some kind; direction = some direction }

-- `setType`, `setLength` and `setData`
abbrev pub set_type : EventType → TcpObject → TcpObject
set_type kind e = record e { kind = some kind }

abbrev pub set_length : ℤ → TcpObject → TcpObject
set_length n e = record e { length = some n }

abbrev pub set_data : Pointer → TcpObject → TcpObject
set_data p e = record e { data_ptr = p; lost = e.lost + 1 }

-- `~TTCPEvent`; `none` is undefined.
pub delete_tcp : TcpObject → Option TcpObject
delete_tcp e = elim (release e.data_ptr) [ none ↦ none | some p ↦ some (record e { data_ptr = p }) ]

-- `delete` of one event after the other; the number of those deleted before one whose destructor is undefined.
pub delete_all : List TcpObject → ℕ
delete_all [] = 0
delete_all (e ∷ es) =
    let rest = delete_all es in elim (delete_tcp e) [ none ↦ 0 | some _ ↦ rest + 1 ]

-- A `struct evhttp_request` as far as `THttpEvent` reads it: whether its kind is `EVHTTP_REQUEST`, and its type.
pub record HttpMessage : Type 0 where
  pub kind_is_request : Bool
  pub cmd_type : ℕ

-- `m_httpMsg`: what nobody assigned, NULL, or a message.
pub data MessagePtr : Type 0 where
  unset nothing : MessagePtr
  message : HttpMessage → MessagePtr

pub record HttpObject : Type 0 where
  pub direction : Direction
  pub msg : MessagePtr

-- `THttpEvent::THttpEvent`; NULL is not kept, and nothing else is.
abbrev pub new_http : Direction → Option HttpMessage → HttpObject
new_http direction none = record { direction = direction; msg = unset }
new_http direction (some m) = record { direction = direction; msg = message m }

-- `~THttpEvent`; `none` is undefined. It frees a message that its event was given.
pub delete_http : HttpObject → Option HttpObject
delete_http e = elim e.msg [
  | unset ↦ none
  | nothing ↦ some (record e { msg = nothing })
  | message _ ↦ some (record e { msg = nothing })
]

-- `isRequest` and `getCmdType`; `none` is undefined.
abbrev pub is_request : HttpObject → Option Bool
is_request e = elim e.msg [ unset ↦ none | nothing ↦ none | message m ↦ some m.kind_is_request ]

abbrev pub get_cmd_type : HttpObject → Option ℕ
get_cmd_type e = elim e.msg [ unset ↦ none | nothing ↦ none | message m ↦ some m.cmd_type ]
