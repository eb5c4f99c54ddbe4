-- ===== src/Linux/X11/Delayed.antt =====
-- linux/src/clipboard_manager_x11.cpp: DelayedState, and DelayedClipboardMimeData, which is given by
-- its hash and its kind. retrieveData has two steps: it returns at once or starts to wait, and a wait
-- ends when its predicate holds or at the timeout. A QString is given by its UTF-8 bytes. libwebp's
-- decoder, QImage's encoder, and `reencode`, which is QString::fromUtf8 followed by toUtf8, are
-- parameters.
use clipboard_helper.Prelude.{
  ℕ, Option, none, some, Bool, false, not, ◌||◌, List, [], if◌then◌else◌, Bytes, bytes_eq,
}
use clipboard_helper.Linux.Manager.{Callback, pushed}
use clipboard_helper.Linux.UriList.{format_for_mime}
use clipboard_helper.Linux.Wayland.Sends.{ImageFormat, png, bmp, is_some}
use clipboard_helper.Linux.X11.Formats.{
  image_formats, files_formats, text_formats, qt_image_format, png_format, bmp_format, x_bmp_format,
}

pub data ContentKind : Type 0 where
  text image files : ContentKind

-- `std::optional` and `std::function` as options.
pub record DelayedState : Type 0 where
  pub stop : Bool
  pub current_hash : Bytes
  pub content_kind : ContentKind
  pub pending_data : Option Bytes
  pub pending_data_hash : Bytes
  pub cached_clipboard_text : Option Bytes
  pub on_changed : Callback
  pub on_request : Callback

abbrev pub new_state : DelayedState
new_state = record {
  stop = false;
  current_hash = [];
  content_kind = text;
  pending_data = none;
  pending_data_hash = [];
  cached_clipboard_text = none;
  on_changed = none;
  on_request = none;
}

unfoldable pub formats : ContentKind → List Bytes
formats image = image_formats
formats files = files_formats
formats text = text_formats

-- The pending data, if its hash is that of the object.
unfoldable pub own_data : DelayedState → Bytes → Option Bytes
own_data s hash = elim s.pending_data [
  | none ↦ none
  | some bytes ↦ if bytes_eq s.pending_data_hash hash then some bytes else none
]

-- The predicate of the wait; `stop` is the value that it loads.
unfoldable pub wait_predicate : Bool → DelayedState → Bytes → Bool
wait_predicate stop s hash = stop || is_some (own_data s hash)

-- What WaitForBytes returns behind the wait: `none` is false.
unfoldable pub taken : Bool → DelayedState → Bytes → Option Bytes
taken got s hash = if s.stop || not got then none else own_data s hash

-- The end of a wait in a state: `stop_seen` is the value that the predicate loaded, and `none` is a
-- wait that goes on, before the timeout.
unfoldable pub end_wait : Bool → Bool → DelayedState → Bytes → Option (Option Bytes)
unfolding taken
end_wait timed_out stop_seen s hash =
    let got = wait_predicate stop_seen s hash in
    if got || timed_out then some (taken got s hash) else none

-- The type that Qt asks for.
pub data MetaType : Type 0 where
  q_string q_image other_type : MetaType

pub data Variant (I : Type 0) : Type 0 where
  invalid : Variant I
  string byte_array : Bytes → Variant I
  image_value : I → Variant I

-- `blocks` has the hash that the wait is for and the request callback's frame.
pub data Retrieval (I : Type 0) : Type 0 where
  returned : Variant I → Retrieval I
  blocks : Bytes → Option Bytes → Retrieval I

module _ {I : Type 0} (decode : Bytes → Option I) (save : I → ImageFormat → Option Bytes)
    (reencode : Bytes → Bytes) where
  unfoldable pub materialise_text : Bytes → MetaType → Variant I
  materialise_text bytes q_string = string (reencode bytes)
  materialise_text bytes q_image = byte_array bytes
  materialise_text bytes other_type = byte_array bytes

  unfoldable pub saved : Option Bytes → Variant I
  saved none = invalid
  saved (some out) = byte_array out

  -- The image as the byte stream of a MIME type.
  unfoldable pub encode_image : I → Bytes → Variant I
  unfolding saved
  encode_image img mime =
      if bytes_eq mime png_format
      then saved (save img png)
      else if bytes_eq mime bmp_format || bytes_eq mime x_bmp_format
      then saved (save img bmp)
      else invalid

  unfoldable pub image_as : I → Bytes → MetaType → Variant I
  unfolding encode_image
  image_as img mime q_image = image_value img
  image_as img mime q_string =
      if bytes_eq mime qt_image_format then image_value img else encode_image img mime
  image_as img mime other_type =
      if bytes_eq mime qt_image_format then image_value img else encode_image img mime

  unfoldable pub materialise_image : Bytes → Bytes → MetaType → Variant I
  unfolding image_as
  materialise_image webp_bytes mime type = elim (decode webp_bytes) [
    | none ↦ invalid
    | some img ↦ image_as img mime type
  ]

  unfoldable pub materialise : ContentKind → Bytes → Bytes → MetaType → Variant I
  materialise image bytes mime type = materialise_image bytes mime type
  materialise files bytes mime type = byte_array (format_for_mime bytes mime)
  materialise text bytes mime type = materialise_text bytes type

  -- retrieveData behind the first look at the pending data.
  unfoldable pub retrieval_of :
      Option Bytes → ContentKind → Bytes → Option Bytes → Bytes → MetaType → Retrieval I
  retrieval_of (some bytes) kind hash request mime type =
      returned (materialise kind bytes mime type)
  retrieval_of none kind hash request mime type = blocks hash request

  unfoldable pub retrieve_data :
      ℕ → DelayedState → Bytes → ContentKind → Bytes → MetaType → Retrieval I
  retrieve_data clock s hash kind mime type =
      retrieval_of (own_data s hash) kind hash (pushed s.on_request clock hash) mime type

  -- retrieveData behind what WaitForBytes returns.
  unfoldable pub variant_of : ContentKind → Option Bytes → Bytes → MetaType → Variant I
  variant_of kind none mime type = invalid
  variant_of kind (some bytes) mime type = materialise kind bytes mime type

  unfoldable pub resumed :
      Option (Option Bytes) → ContentKind → Bytes → MetaType → Option (Variant I)
  resumed none kind mime type = none
  resumed (some r) kind mime type = some (variant_of kind r mime type)

  -- retrieveData in the state where its wait ends.
  unfoldable pub resume_retrieve :
      Bool → Bool → DelayedState → Bytes → ContentKind → Bytes → MetaType → Option (Variant I)
  resume_retrieve timed_out stop_seen s hash kind mime type =
      resumed (end_wait timed_out stop_seen s hash) kind mime type
