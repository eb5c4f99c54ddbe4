-- ===== src/Tests/X11.antt =====
-- Witnesses for the X11 backend.
use clipboard_helper.Prelude.{
  ℕ, ◌≡◌, refl, Option, none, some, Bool, true, false, List, [], ◌∷◌, arith, Bytes,
}
use clipboard_helper.Proto.MessageType
use clipboard_helper.Proto.Field
use clipboard_helper.Linux.Codec.{encode_clipboard_data_inner_text}
use clipboard_helper.Linux.Manager.{pushed}
use clipboard_helper.Linux.Wayland.Sends.{ImageFormat}
use clipboard_helper.Linux.Dispatch.{Dispatcher, handle, encode_clipboard_content_text}
use clipboard_helper.Linux.Dispatch.Delivery.{envelope}
use clipboard_helper.Linux.X11.{X11Manager, new_manager, x11_manager, place, place_delayed}
use clipboard_helper.Linux.X11.Delayed.{
  text, new_state, other_type, retrieve_data, end_wait, own_data,
}
use clipboard_helper.Linux.X11.Changes.{on_clipboard_changed, blocked}
use clipboard_helper.Linux.X11.Events.{
  Event, announce, provide, main_runs, data_changed, happen_all,
}
use clipboard_helper.Linux.X11.Slot.{view, specify_all, content_for}
use clipboard_helper.Linux.X11.Own.{changed-meant, meant, early_echo-blocks}
use clipboard_helper.Linux.X11.Serve.{serve, retrieve_data-Slot, end_wait-Slot, awaited}
use clipboard_helper.Linux.X11.GetSet.{get_set, get_request}

abbrev decode : Bytes → Option ℕ
decode b = none

abbrev save : ℕ → ImageFormat → Option Bytes
save i f = none

abbrev reencode : Bytes → Bytes
reencode b = b

abbrev formats_text : List Bytes → Bool
formats_text fs = true

-- An announcement that reaches the clipboard, and its answer.
abbrev served : List Event
served =
    announce text (1 ∷ [])
    ∷ main_runs true 5
    ∷ data_changed true 0
    ∷ provide (1 ∷ []) (104 ∷ [])
    ∷ []

abbrev after : List Event → X11Manager ℕ
after es = happen_all decode save reencode formats_text es new_manager

changed-meant_example :
    on_clipboard_changed decode save reencode formats_text true 7 (after served)
    ≡ meant reencode 7 (after served).clipboard (after served)
changed-meant_example = changed-meant decode save reencode formats_text served 7

early_echo-blocks_example :
    (on_clipboard_changed decode save reencode formats_text true 7
      (place 6 (place_delayed (1 ∷ []) text) (after []))).1
    ≡ blocked (1 ∷ []) (pushed (after []).state.on_request 7 (1 ∷ []))
unfolding own_data happen_all
early_echo-blocks_example =
    early_echo-blocks decode save reencode formats_text (1 ∷ []) 6 7 [] refl refl

retrieve_data-Slot_example :
    retrieve_data decode save reencode 7 (after served).state (1 ∷ []) text [] other_type
    ≡ serve decode save reencode
        (content_for (specify_all served (view new_state)) (1 ∷ []))
        text
        (1 ∷ [])
        (pushed (after served).state.on_request 7 (1 ∷ []))
        []
        other_type
retrieve_data-Slot_example =
    retrieve_data-Slot decode save reencode formats_text served 7 (1 ∷ []) text [] other_type

end_wait-Slot_example :
    end_wait false (after served).state.stop (after served).state (1 ∷ [])
    ≡ awaited
        (after served).state.stop
        false
        (content_for (specify_all served (view new_state)) (1 ∷ []))
end_wait-Slot_example = end_wait-Slot decode save reencode formats_text served false (1 ∷ [])

abbrev attached : Dispatcher (X11Manager ℕ)
attached = record {
  clipboard = some new_manager;
  has_socket = true;
  has_shutdown_callback = true;
  attached = true;
  shutdown_requests = 0;
}

abbrev set_hi : Dispatcher (X11Manager ℕ)
set_hi =
    (handle (x11_manager decode) attached
      (envelope MessageType.set_clipboard Field.Message.clipboard_data
        (encode_clipboard_data_inner_text (104 ∷ 105 ∷ []) (1 ∷ [])))
      7).0

get_set_example :
    handle (x11_manager decode) set_hi get_request 8
    ≡ (set_hi, encode_clipboard_content_text (104 ∷ 105 ∷ []) 8)
get_set_example =
    get_set decode attached new_manager (104 ∷ 105 ∷ []) (1 ∷ []) 7 8 refl (omega arith)
