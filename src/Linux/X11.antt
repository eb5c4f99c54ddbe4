-- ===== src/Linux/X11.antt =====
-- linux/src/clipboard_manager_x11.cpp, X11ClipboardManager: its methods, the tasks that they queue for
-- the main thread, and the slot OnClipboardChanged. Each critical section under `mu` is one step. The
-- clipboard of Qt is given by the object that stands on it, with its address. Qt deletes the object
-- that it replaces; the address of a new object is a parameter of the step that makes it.
mod Formats
pub mod Delayed
pub mod Changes
pub mod Events
pub mod Echoes
pub mod Own
pub mod Slot
pub mod Serve
pub mod GetSet
use clipboard_helper.Prelude.{
  ℕ, Option, none, some, Bool, true, false, not, ◌&&◌, List, [], ◌∷◌, ◌++◌, if◌then◌else◌, Bytes,
  bytes_eq,
}
use clipboard_helper.Linux.Manager.{ClipboardManager}
use clipboard_helper.Linux.Echo.{
  EchoSuppressor, record_eager_set_text, record_announced_mime, mime_destroyed,
}
use clipboard_helper.Linux.X11.Delayed.{ContentKind, text, image, files, DelayedState, new_state}

-- An object on the clipboard: a QMimeData with a text or an image, a DelayedClipboardMimeData, or
-- another application's, with its hasText() and text().
pub data Mime (I : Type 0) : Type 0 where
  plain_text : Bytes → Mime I
  image_data : I → Mime I
  delayed : Bytes → ContentKind → Mime I
  foreign : Bool → Bytes → Mime I

-- A lambda that InvokeOnMain is given.
pub data Task (I : Type 0) : Type 0 where
  place_text : Bytes → Task I
  place_image : I → Task I
  place_delayed : Bytes → ContentKind → Task I
  clear_clipboard : Task I

pub record X11Manager (I : Type 0) : Type 0 where
  pub state : DelayedState
  pub tasks : List (Task I)
  pub echo : EchoSuppressor
  pub clipboard : Option (ℕ × Mime I)

-- The thread that calls a method; on the main thread with whether QGuiApplication::clipboard() is not
-- null, and with the address of the object that `new` returns.
pub data Caller : Type 0 where
  no_application off_main : Caller
  on_main : Bool → ℕ → Caller

-- The block under the lock of AnnounceDelayed.
unfoldable pub set_announced : Bytes → ContentKind → DelayedState → DelayedState
set_announced content_hash kind s = record s {
  current_hash = content_hash;
  content_kind = kind;
  pending_data = none;
  pending_data_hash = [];
}

-- The block under the lock of ProvideData.
unfoldable pub set_provided : Bytes → Bytes → DelayedState → DelayedState
set_provided content_hash bytes s =
    if bytes_eq s.current_hash content_hash
    then record s { pending_data = some bytes; pending_data_hash = content_hash }
    else s

module _ {I : Type 0} where
  -- The QPointer of the suppressor, when Qt deletes the object on the clipboard.
  unfoldable pub release_mime : Option (ℕ × Mime I) → EchoSuppressor → EchoSuppressor
  release_mime none echo = echo
  release_mime (some (a, _)) echo = mime_destroyed a echo

  -- setMimeData, and clear() with `none`.
  unfoldable pub replace_mime : Option (ℕ × Mime I) → X11Manager I → X11Manager I
  replace_mime next m = record m { clipboard = next; echo = release_mime m.clipboard m.echo }

  unfoldable pub mime_of : ℕ → Task I → Option (ℕ × Mime I)
  mime_of address (place_text utf8) = some (address, plain_text utf8)
  mime_of address (place_image img) = some (address, image_data img)
  mime_of address (place_delayed hash kind) = some (address, delayed hash kind)
  mime_of address clear_clipboard = none

  -- What a task records behind setMimeData.
  unfoldable pub record_echo : ℕ → Task I → EchoSuppressor → EchoSuppressor
  record_echo address (place_text utf8) echo = record_eager_set_text utf8 echo
  record_echo address (place_image img) echo = record_announced_mime (some address) echo
  record_echo address (place_delayed hash kind) echo = record_announced_mime (some address) echo
  record_echo address clear_clipboard echo = echo

  unfoldable pub place : ℕ → Task I → X11Manager I → X11Manager I
  place address task m = replace_mime (mime_of address task) m

  unfoldable pub run_task : Bool → ℕ → Task I → X11Manager I → X11Manager I
  run_task has_clipboard address task m =
      if has_clipboard
      then (let placed = place address task m in
          record placed { echo = record_echo address task placed.echo })
      else m

  unfoldable pub invoke_on_main : Caller → Task I → X11Manager I → X11Manager I
  invoke_on_main no_application task m = m
  invoke_on_main (on_main has_clipboard address) task m = run_task has_clipboard address task m
  invoke_on_main off_main task m = record m { tasks = m.tasks ++ task ∷ [] }

  -- The main thread takes the next queued task.
  unfoldable pub run_next : Bool → ℕ → X11Manager I → X11Manager I
  run_next has_clipboard address m = elim m.tasks [
    | [] ↦ m
    | task ∷ rest ↦ run_task has_clipboard address task (record m { tasks = rest })
  ]

  unfoldable pub set_clipboard_text : Caller → Bytes → X11Manager I → X11Manager I
  set_clipboard_text caller utf8 m =
      invoke_on_main caller (place_text utf8)
        (record m { state = record m.state { cached_clipboard_text = some utf8 } })

  unfoldable pub place_decoded : Caller → Option I → X11Manager I → X11Manager I
  place_decoded caller none m = m
  place_decoded caller (some img) m = invoke_on_main caller (place_image img) m

  unfoldable pub announce_delayed : Caller → Bytes → ContentKind → X11Manager I → X11Manager I
  announce_delayed caller content_hash kind m =
      invoke_on_main caller (place_delayed content_hash kind)
        (record m { state = set_announced content_hash kind m.state })

  unfoldable pub provide_data : Bytes → Bytes → X11Manager I → X11Manager I
  provide_data content_hash bytes m = record m { state = set_provided content_hash bytes m.state }

  -- The destructor. Qt cancels the tasks that are anchored on the manager.
  unfoldable pub destroy : Caller → X11Manager I → X11Manager I
  destroy caller m =
      invoke_on_main caller clear_clipboard
        (record m { state = record m.state { stop = true }; tasks = [] })

  -- The manager as a backend of the Dispatcher, whose calls come from another thread.
  unfoldable pub x11_manager : (Bytes → Option I) → ClipboardManager (X11Manager I)
  x11_manager decode = record {
    set_clipboard_text = set_clipboard_text off_main;
    set_clipboard_image = λ webp_bytes m. place_decoded off_main (decode webp_bytes) m;
    announce_delayed_text = λ content_hash m. announce_delayed off_main content_hash text m;
    announce_delayed_image = λ content_hash m. announce_delayed off_main content_hash image m;
    announce_delayed_files = λ content_hash m. announce_delayed off_main content_hash files m;
    provide_data = provide_data;
    get_clipboard_text = λ m. m.state.cached_clipboard_text;
    set_on_clipboard_changed = λ cb m. record m { state = record m.state { on_changed = cb } };
    set_on_data_request = λ cb m. record m { state = record m.state { on_request = cb } };
  }

  abbrev pub new_manager : X11Manager I
  new_manager = record {
    state = new_state;
    tasks = [];
    echo = record { last_set_text = none; announced_mime = none };
    clipboard = none;
  }

  -- MakeX11Manager with Init: whether there is an application, and its clipboard.
  unfoldable pub make_x11_manager : Bool → Bool → Option (X11Manager I)
  make_x11_manager has_application has_clipboard =
      if has_application then (if has_clipboard then some new_manager else none) else none
