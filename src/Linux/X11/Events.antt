-- ===== src/Linux/X11/Events.antt =====
-- linux/src/clipboard_manager_x11.cpp: what happens to an X11ClipboardManager, as steps: the calls of
-- the Dispatcher, the main thread that takes a queued task, another application that takes the
-- clipboard, and dataChanged when no task is within setMimeData.
use clipboard_helper.Prelude.{ℕ, Option, Bool, List, [], ◌∷◌, Bytes}
use clipboard_helper.Linux.Manager.{Callback}
use clipboard_helper.Linux.Wayland.Sends.{ImageFormat}
use clipboard_helper.Linux.X11.{
  X11Manager, foreign, x11_manager, run_next, replace_mime, off_main, on_main, destroy,
  announce_delayed,
}
use clipboard_helper.Linux.X11.Delayed.{ContentKind}
use clipboard_helper.Linux.X11.Changes.{on_clipboard_changed}
use clipboard_helper.Prelude.{some}

pub data Event : Type 0 where
  set_text : Bytes → Event
  set_image : Bytes → Event
  announce : ContentKind → Bytes → Event
  provide : Bytes → Bytes → Event
  install : Callback → Callback → Event
  main_runs : Bool → ℕ → Event
  external_copy : ℕ → Bool → Bytes → Event
  data_changed : Bool → ℕ → Event
  destroyed : Bool → ℕ → Event

module _ {I : Type 0} (decode : Bytes → Option I) (save : I → ImageFormat → Option Bytes)
    (reencode : Bytes → Bytes) (formats_text : List Bytes → Bool) where
  unfoldable pub happen : Event → X11Manager I → X11Manager I
  happen (set_text utf8) m = (x11_manager decode).set_clipboard_text utf8 m
  happen (set_image webp_bytes) m = (x11_manager decode).set_clipboard_image webp_bytes m
  happen (announce kind hash) m = announce_delayed off_main hash kind m
  happen (provide hash bytes) m = (x11_manager decode).provide_data hash bytes m
  happen (install changed request) m =
      (x11_manager decode).set_on_data_request request
        ((x11_manager decode).set_on_clipboard_changed changed m)
  happen (main_runs has_clipboard address) m = run_next has_clipboard address m
  happen (external_copy address has_text utf8) m =
      replace_mime (some (address, foreign has_text utf8)) m
  happen (data_changed has_clipboard clock) m =
      (on_clipboard_changed decode save reencode formats_text has_clipboard clock m).0
  happen (destroyed has_clipboard address) m = destroy (on_main has_clipboard address) m

  unfoldable pub happen_all : List Event → X11Manager I → X11Manager I
  happen_all [] m = m
  happen_all (e ∷ es) m = happen_all es (happen e m)
