-- ===== src/Event/Objects/Tests.antt =====
-- Event objects of src/tcpevent.C and src/httpevent.C.
use ptf.Prelude.{◌≡◌, refl, true, none, some, [], ◌∷◌}
use ptf.Prelude.Int.{pos}
use ptf.Prelude.Pointer.{live}
use ptf.Event.{EventType, Direction}
use ptf.Event.Objects.{
  new_tcp, set_type, set_length, set_data, delete_tcp, delete_all, new_http, delete_http,
  is_request,
}

-- What `buffer_add_cb` pushes cannot be deleted; with data it can.
deleted_events :
    delete_all (
      set_data live (set_type EventType.tcp_data new_tcp)
      ∷ set_length (pos 5) (set_type EventType.tcp_data new_tcp)
      ∷ [])
    ≡ 1
unfolding delete_all delete_tcp
deleted_events = refl

without_message : delete_http (new_http Direction.rx none) ≡ none
unfolding delete_http
without_message = refl

with_message :
    is_request (new_http Direction.rx (some (record { kind_is_request = true; cmd_type = 1 })))
    ≡ some true
with_message = refl
