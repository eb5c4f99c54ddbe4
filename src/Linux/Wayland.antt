-- ===== src/Linux/Wayland.antt =====
-- linux/src/clipboard_manager_wayland.cpp, WlrClipboardManager (clipboard_manager_ext.cpp is the same
-- text over the other protocol): the state that the manager shares with its workers, and the manager's
-- methods. Each critical section under `mu` is one step. The methods are called from the socket's
-- thread, so InvokeOnMain queues its task for the main thread; `run_task` is the main thread taking
-- the next one. A data source is given by the MIME types that it offers.
mod Mimes
pub mod Sends
pub mod Offers
pub mod Slot
pub mod Paste
pub mod Receive
pub mod Drains
pub mod Selection
unfoldable pub use Mimes.{
  text_mime_types, image_mime_types, files_mime_types, png_mime, bmp_mime, x_bmp_mime,
}
use clipboard_helper.Prelude.{
  ℕ, Option, none, some, Bool, true, false, List, [], ◌∷◌, ◌++◌, if◌then◌else◌, Bytes, bytes_eq,
}
use clipboard_helper.Linux.Manager.{Callback, ClipboardManager}

pub data ContentKind : Type 0 where
  text image files : ContentKind

-- `std::optional` and `std::function` as options.
pub record WlrState : Type 0 where
  pub stop : Bool
  pub current_hash : Bytes
  pub content_kind : ContentKind
  pub pending_data : Option Bytes
  pub pending_data_hash : Bytes
  pub cached_clipboard_text : Option Bytes
  pub on_changed : Callback
  pub on_request : Callback

abbrev pub new_state : WlrState
new_state = record {
  stop = false;
  current_hash = [];
  content_kind = text;
  pending_data = none;
  pending_data_hash = [];
  cached_clipboard_text = none;
  on_changed = none;
  on_request = none;
}

-- The block under the lock of SetClipboardText and SetClipboardImage: the payload is its own key.
unfoldable pub set_eager : ContentKind → Bytes → WlrState → WlrState
set_eager kind payload s = record s {
  current_hash = payload;
  content_kind = kind;
  pending_data = some payload;
  pending_data_hash = payload;
}

-- The block under the lock of AnnounceDelayedText, AnnounceDelayedImage and AnnounceDelayedFiles.
unfoldable pub set_announced : ContentKind → Bytes → WlrState → WlrState
set_announced kind content_hash s = record s {
  current_hash = content_hash;
  content_kind = kind;
  pending_data = none;
  pending_data_hash = [];
}

-- The block under the lock of ProvideData.
unfoldable pub set_provided : Bytes → Bytes → WlrState → WlrState
set_provided content_hash bytes s =
    if bytes_eq s.current_hash content_hash
    then record s { pending_data = some bytes; pending_data_hash = content_hash }
    else s

-- `ready` is whether `display_` and `device_` are there.
pub record WlrManager : Type 0 where
  pub state : WlrState
  pub tasks : List ContentKind
  pub ready : Bool
  pub current_source : Option (List Bytes)

-- InvokeOnMain with the task RecreateSource.
unfoldable pub invoke_on_main : ContentKind → WlrManager → WlrManager
invoke_on_main kind m = record m { tasks = m.tasks ++ kind ∷ [] }

unfoldable pub mime_types : ContentKind → List Bytes
mime_types image = image_mime_types
mime_types files = files_mime_types
mime_types text = text_mime_types

-- `created` is whether the compositor's library returns a source.
unfoldable pub recreate_source : Bool → ContentKind → WlrManager → WlrManager
recreate_source created kind m =
    if m.ready
    then record m { current_source = if created then some (mime_types kind) else none }
    else m

unfoldable pub run_task : Bool → WlrManager → WlrManager
run_task created m = elim m.tasks [
  | [] ↦ m
  | kind ∷ rest ↦ recreate_source created kind (record m { tasks = rest })
]

unfoldable pub set_kind : ContentKind → Bytes → WlrManager → WlrManager
set_kind kind payload m = invoke_on_main kind (record m { state = set_eager kind payload m.state })

unfoldable pub announce_kind : ContentKind → Bytes → WlrManager → WlrManager
announce_kind kind content_hash m =
    invoke_on_main kind (record m { state = set_announced kind content_hash m.state })

-- The manager as a backend of the Dispatcher.
unfoldable pub wlr_manager : ClipboardManager WlrManager
wlr_manager = record {
  set_clipboard_text = set_kind text;
  set_clipboard_image = set_kind image;
  announce_delayed_text = announce_kind text;
  announce_delayed_image = announce_kind image;
  announce_delayed_files = announce_kind files;
  provide_data =
      λ content_hash bytes m. record m { state = set_provided content_hash bytes m.state };
  get_clipboard_text = λ m. m.state.cached_clipboard_text;
  set_on_clipboard_changed = λ cb m. record m { state = record m.state { on_changed = cb } };
  set_on_data_request = λ cb m. record m { state = record m.state { on_request = cb } };
}

-- OnSourceCancelled, which runs on the main thread.
unfoldable pub on_source_cancelled : WlrManager → WlrManager
on_source_cancelled m = record m { current_source = none }

-- The destructor: the workers are told to stop, and the source is destroyed.
unfoldable pub destroy : WlrManager → WlrManager
destroy m = record m {
  state = record m.state { stop = true };
  ready = false;
  current_source = none;
}
