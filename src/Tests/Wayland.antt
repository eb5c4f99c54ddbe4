-- ===== src/Tests/Wayland.antt =====
-- Witnesses for the Wayland backend.
use clipboard_helper.Prelude.{
  ℕ, ◌+◌, ◌≤◌, ◌==◌, if◌then◌else◌, ◌≡◌, refl, Option, none, some, true, false, List, [], ◌∷◌, ◌++◌,
  arith, Bytes, take,
}
use clipboard_helper.Linux.Socket.{Arrival, arrived, interrupted, closed}
use clipboard_helper.Linux.Socket.Exact.{stream}
use clipboard_helper.Linux.Manager.{pushed}
use clipboard_helper.Linux.Wayland.{text, image, new_state, set_announced, set_provided, WlrManager}
use clipboard_helper.Linux.Wayland.Sends.{
  ImageFormat, pending_for, wait_predicate, outcome_of, end_wait, wait_and_write, on_source_send,
  materialise,
}
use clipboard_helper.Linux.Wayland.Offers.{
  Device, on_device_data_offer, on_device_primary_selection, put_offer, tear_down, receive_cap,
  drain_and_dispatch,
}
use clipboard_helper.Linux.Wayland.Slot.{view, Operation, announce, provide, run, specify_all}
use clipboard_helper.Linux.Wayland.Paste.{paste_of, send-Slot, worker-Slot, superseded_paste}
use clipboard_helper.Linux.Wayland.Receive.{drain_and_dispatch-stream}
use clipboard_helper.Linux.Wayland.Drains.{count, ended}
use clipboard_helper.Linux.Wayland.Selection.{Run, start, introduce, select_primary, Run-tear_down}

abbrev ops : List Operation
ops = announce text (1 ∷ []) ∷ provide (1 ∷ []) (104 ∷ 105 ∷ []) ∷ []

abbrev decode : Bytes → Option ℕ
decode b = none

abbrev save : ℕ → ImageFormat → Option Bytes
save i f = none

send-Slot_example :
    on_source_send decode save 7 (run ops new_state) []
    ≡ paste_of decode save
        (specify_all ops (view new_state)).content
        (specify_all ops (view new_state)).kind
        (specify_all ops (view new_state)).key
        (run ops new_state).on_request
        7
        []
send-Slot_example = send-Slot decode save ops 7 []

worker-Slot_example :
    (bytes : Bytes) × ((specify_all ops (view new_state)).key ≡ 1 ∷ [])
    × ((specify_all ops (view new_state)).content ≡ some bytes)
    × (wait_and_write decode save false false (run ops new_state) (1 ∷ []) []
        ≡ some (materialise decode save (specify_all ops (view new_state)).kind bytes []))
unfolding end_wait pending_for wait_predicate set_provided set_announced outcome_of
worker-Slot_example = worker-Slot decode save ops false false (1 ∷ []) [] refl

superseded_paste_example :
    (set_provided
        (1 ∷ [])
        (9 ∷ [])
        (set_announced image (2 ∷ []) (set_announced text (1 ∷ []) new_state))
      ≡ set_announced image (2 ∷ []) (set_announced text (1 ∷ []) new_state))
    × (end_wait false false
          (set_announced image (2 ∷ []) (set_announced text (1 ∷ []) new_state))
          (1 ∷ [])
        ≡ none)
    × (wait_and_write decode save true false
          (set_announced image (2 ∷ []) (set_announced text (1 ∷ []) new_state))
          (1 ∷ [])
          []
        ≡ some [])
superseded_paste_example =
    superseded_paste decode save text image (1 ∷ []) (2 ∷ []) (9 ∷ []) [] new_state refl
      (λ e. ground arith)

abbrev pieces : List Arrival
pieces = arrived (104 ∷ []) ∷ interrupted ∷ arrived (105 ∷ []) ∷ []

drain_and_dispatch-stream_example : drain_and_dispatch 7 (pieces ++ closed ∷ []) new_state ≡ (
  record new_state { cached_clipboard_text = some (take receive_cap (stream pieces)) },
  pushed new_state.on_changed 7 (take receive_cap (stream pieces)),
)
drain_and_dispatch-stream_example =
    drain_and_dispatch-stream 7 pieces new_state (tt, (tt, (tt, tt))) refl

abbrev manager : WlrManager
manager = record { state = new_state; tasks = []; ready = true; current_source = none }

abbrev device : Device
device = record { manager = manager; offer_mimes = []; destroyed = []; received = [] }

abbrev two_offers : Device
two_offers = on_device_primary_selection 5 (on_device_data_offer 5 (on_device_data_offer 4 device))

seen : Run (5 ∷ 4 ∷ []) (5 ∷ []) two_offers
unfolding on_device_data_offer put_offer
seen = select_primary 5 (
    introduce 5 (introduce 4 (start manager) (λ e. omega arith) (omega arith)) (λ e. omega arith)
      (omega arith))

Run-tear_down_example :
    (count 5 (5 ∷ 4 ∷ []) ≤ ended 5 (tear_down two_offers))
    × (ended 5 (tear_down two_offers) ≤ count 5 (5 ∷ 4 ∷ []) + count 5 (5 ∷ []))
    × (ended 5 (tear_down (on_device_primary_selection 5 two_offers))
        ≡ (if 5 == 0 then 0 else 1) + ended 5 (tear_down two_offers))
Run-tear_down_example = Run-tear_down (5 ∷ 4 ∷ []) (5 ∷ []) two_offers 5 seen
