-- ===== src/Prelude/Pointer.antt =====
-- Pointers as far as a destructor tells them apart. One that nobody has assigned holds any value, and using it is
-- undefined.
use mathlib.Core.Bool.{Bool, true, false}
use mathlib.Core.Option.{Option, none, some}

pub data Pointer : Type 0 where
  unassigned null live : Pointer

-- What a call that makes an object gives.
abbrev pub made_if : Bool → Pointer
made_if true = live
made_if false = null

-- `if (p != NULL) { free(p); p = NULL; }`; `none` is undefined.
abbrev pub release : Pointer → Option Pointer
release unassigned = none
release null = some null
release live = some null
