-- ===== src/Linux/Manager.antt =====
-- linux/src/clipboard_manager.h: the interface between the Dispatcher and a clipboard backend. A
-- backend is a state and these operations on it.
pub mod Stub
use clipboard_helper.Prelude.{ℕ, Option, none, some, Bytes}

-- A callback that the Dispatcher installs: from the clock and the string that the backend passes
-- to the frame that goes to `SendFrame`, if there is a socket. `none` is the empty std::function.
abbrev pub Callback : Type 0
Callback = Option (ℕ → Bytes → Option Bytes)

-- What a callback pushes when the backend calls it.
abbrev pub pushed : Callback → ℕ → Bytes → Option Bytes
pushed none clock s = none
pushed (some f) clock s = f clock s

pub record ClipboardManager (M : Type 0) : Type 0 where
  pub set_clipboard_text : Bytes → M → M
  pub set_clipboard_image : Bytes → M → M
  pub announce_delayed_text : Bytes → M → M
  pub announce_delayed_image : Bytes → M → M
  pub announce_delayed_files : Bytes → M → M
  pub provide_data : Bytes → Bytes → M → M
  pub get_clipboard_text : M → Option Bytes
  pub set_on_clipboard_changed : Callback → M → M
  pub set_on_data_request : Callback → M → M
