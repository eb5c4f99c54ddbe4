-- ===== src/Windows/Dispatch/Handle.antt =====
-- windows/src/dispatch.cpp: OnConnect and Handle, which returns the new state and the reply; the empty
-- reply is no frame.
use clipboard_helper.Prelude.{
  ℕ, Option, none, some, List, [], ◌∷◌, ◌==◌, if◌then◌else◌, Bytes, is_empty, text,
}
use clipboard_helper.Prelude.Parse.{Parse, parsed, malformed, stuck}
use clipboard_helper.Proto.MessageType
use clipboard_helper.Proto.ContentType
use clipboard_helper.Windows.Codec.{
  ParsedHelperMessage, parse_helper_message, ParsedClipboardData, parse_clipboard_data,
}
use clipboard_helper.Windows.Codec.Encoders.{
  encode_ready, encode_error, encode_clipboard_data, encode_clipboard_envelope,
}
use clipboard_helper.Windows.Codec.Files.{Wide, extract_relative_path}
use clipboard_helper.Windows.Dispatch.{
  Call, write_text, write_image, write_files, take, stop_pipe, Reading, World, Dispatcher, call,
  update_file_paths, update_virtual_files,
}
use clipboard_helper.Windows.Dispatch.Files.{handle_file_chunk_request, handle_file_chunk_data}
use clipboard_helper.Windows.Dispatch.Announce.{handle_announce_delayed, handle_provide_data}

unfoldable pub on_connect : World → Bytes
on_connect w = encode_ready w.clock

-- A null pointer comes with length 0.
unfoldable pub range : Option Bytes → Bytes
range none = []
range (some s) = s

unfoldable pub push_path : (Bytes → Wide) → Parse Bytes → List Wide → List Wide
push_path utf8_to_wide malformed paths = paths
push_path utf8_to_wide stuck paths = paths
push_path utf8_to_wide (parsed rel) paths = if is_empty rel then paths else utf8_to_wide rel ∷ paths

-- The loop over `pcd.files`.
unfoldable pub paths_of : (Bytes → Wide) → List Bytes → List Wide
paths_of utf8_to_wide [] = []
paths_of utf8_to_wide (file ∷ files) =
    push_path utf8_to_wide (extract_relative_path file) (paths_of utf8_to_wide files)

-- A write on the STA thread, and the reply.
unfoldable pub write_clipboard : World → Call → Bytes → Dispatcher → Dispatcher × Bytes
write_clipboard w c failure d =
    (call c d, if w.succeeds c then [] else encode_error failure w.clock)

unfoldable pub set_files : World → List Wide → Dispatcher → Dispatcher × Bytes
set_files w paths d =
    if is_empty paths
    then (d, [])
    else write_clipboard w (write_files paths) (text "WriteClipboardFiles failed") d

unfoldable pub apply_clipboard_data :
    World → Parse ParsedClipboardData → Dispatcher → Dispatcher × Bytes
apply_clipboard_data w malformed d =
    (d, encode_error (text "SET_CLIPBOARD clipboard_data parse failed") w.clock)
apply_clipboard_data w stuck d =
    (d, encode_error (text "SET_CLIPBOARD clipboard_data parse failed") w.clock)
apply_clipboard_data w (parsed pcd) d =
    if pcd.content_type == ContentType.text
    then write_clipboard w (write_text (w.utf8_to_wide (range pcd.payload)))
        (text "WriteClipboardText failed") d
    else if pcd.content_type == ContentType.image
    then write_clipboard w (write_image (range pcd.payload)) (text "WriteClipboardImagePng failed")
        d
    else if pcd.content_type == ContentType.files
    then set_files w (paths_of w.utf8_to_wide pcd.files) d
    else (d, [])

unfoldable pub handle_set_clipboard : World → Option Bytes → Dispatcher → Dispatcher × Bytes
handle_set_clipboard w none d =
    (d, encode_error (text "SET_CLIPBOARD missing clipboard_data") w.clock)
handle_set_clipboard w (some s) d = apply_clipboard_data w (parse_clipboard_data s) d

-- ReadClipboard hands its object over.
unfoldable pub take_object : ℕ → Dispatcher → Dispatcher
take_object object d = if object == 0 then d else call (take object) d

-- The tables of files behind a successful ReadClipboard.
unfoldable pub update_tables : Reading → Dispatcher → Dispatcher
update_tables r d =
    if r.snapshot.content_type == ContentType.files
    then (if is_empty r.snapshot.virtual_files
        then update_file_paths r.snapshot.file_paths d
        else update_virtual_files r.virtual_data_object r.lindexes d)
    else d

unfoldable pub update_files : Reading → Dispatcher → Dispatcher
update_files r d = update_tables r (take_object r.virtual_data_object d)

unfoldable pub reading_frame : World → ℕ → Reading → Bytes
reading_frame w outer r =
    encode_clipboard_envelope outer
      (encode_clipboard_data w.wide_to_utf8 w.get_file_attributes r.snapshot) w.clock

unfoldable pub get_reading : World → Option Reading → Dispatcher → Dispatcher × Bytes
get_reading w none d = (d, encode_clipboard_envelope MessageType.clipboard_content [] w.clock)
get_reading w (some r) d = (update_files r d, reading_frame w MessageType.clipboard_content r)

unfoldable pub handle_get_clipboard : World → Dispatcher → Dispatcher × Bytes
handle_get_clipboard w d = get_reading w w.read_clipboard d

-- A case that wants a sub-message, and replies with an error only where that is missing.
unfoldable pub with_payload :
    World
    → Option Bytes
    → Bytes
    → (Bytes → Dispatcher → Dispatcher)
    → Dispatcher
    → Dispatcher × Bytes
with_payload w none failure handler d = (d, encode_error failure w.clock)
with_payload w (some s) failure handler d = (handler s d, [])

-- The switch of Handle.
unfoldable pub route : World → ParsedHelperMessage → Dispatcher → Dispatcher × Bytes
route w m d =
    if m.type == MessageType.set_clipboard
    then handle_set_clipboard w m.clipboard_data d
    else if m.type == MessageType.get_clipboard
    then handle_get_clipboard w d
    else if m.type == MessageType.announce_delayed
    then with_payload w m.announcement (text "ANNOUNCE_DELAYED missing announcement payload")
        (handle_announce_delayed w) d
    else if m.type == MessageType.provide_data
    then with_payload w m.provide_data (text "PROVIDE_DATA missing provide_data payload")
        handle_provide_data d
    else if m.type == MessageType.file_chunk_request
    then with_payload w m.file_chunk_request
        (text "FILE_CHUNK_REQUEST missing file_chunk_request payload") (handle_file_chunk_request w)
        d
    else if m.type == MessageType.file_chunk_data
    then with_payload w m.file_chunk_data (text "FILE_CHUNK_DATA missing file_chunk_data payload")
        handle_file_chunk_data d
    else if m.type == MessageType.file_transfer_progress
    then (d, [])
    else if m.type == MessageType.shutdown
    then (call stop_pipe d, [])
    else (d, encode_error (text "unknown or unsupported HelperMessageType") w.clock)

unfoldable pub handle_parsed : World → Parse ParsedHelperMessage → Dispatcher → Dispatcher × Bytes
handle_parsed w malformed d = (d, [])
handle_parsed w stuck d = (d, [])
handle_parsed w (parsed m) d = route w m d

unfoldable pub handle : World → Bytes → Dispatcher → Dispatcher × Bytes
handle w request d = handle_parsed w (parse_helper_message request) d
