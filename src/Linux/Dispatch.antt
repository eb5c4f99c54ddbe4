-- ===== src/Linux/Dispatch.antt =====
-- linux/src/dispatch.h and dispatch.cpp: the Dispatcher between the socket and a clipboard backend,
-- over any backend `ops`. A method returns the new state and the reply frame; the empty reply is
-- no frame. The clock is given by the value that it returns during the call.
pub mod Replies
pub mod Content
pub mod Delivery
pub mod Callbacks
use clipboard_helper.Prelude.{
  ℕ, ◌+◌, Option, none, some, Bool, true, false, ◌||◌, [], ◌∷◌, ◌++◌, ◌==◌, if◌then◌else◌, Bytes,
  is_empty, text,
}
use clipboard_helper.Prelude.Parse.{succeeded}
use clipboard_helper.Proto.MessageType
use clipboard_helper.Proto.ContentType
use clipboard_helper.Proto.Field
use clipboard_helper.Wire.{
  write_enum_field, write_uint64_field, write_bytes_field, write_sub_message_field,
}
use clipboard_helper.Linux.Codec.{
  encode_ready, encode_error, encode_clipboard_changed_text, encode_data_request,
  ParsedHelperMessage, ParsedClipboardData, ParsedAnnouncement, parse_helper_message,
  parse_clipboard_data, parse_announcement, parse_provide_data,
}
use clipboard_helper.Linux.Manager.{Callback, ClipboardManager}

-- `clipboard_` and `socket_` may be null, `on_shutdown_request_` empty. The last field counts the
-- calls of `on_shutdown_request_`.
pub record Dispatcher (M : Type 0) : Type 0 where
  pub clipboard : Option M
  pub has_socket : Bool
  pub has_shutdown_callback : Bool
  pub attached : Bool
  pub shutdown_requests : ℕ

unfoldable pub encode_content_inner : Bytes → Bytes
encode_content_inner utf8 =
    write_enum_field Field.ClipboardData.content_type ContentType.text
    ++ (if is_empty utf8 then [] else write_bytes_field Field.ClipboardData.payload utf8)

unfoldable pub encode_clipboard_content_text : Bytes → ℕ → Bytes
encode_clipboard_content_text utf8 clock =
    write_enum_field Field.Message.type MessageType.clipboard_content
    ++ (write_sub_message_field Field.Message.clipboard_data (encode_content_inner utf8)
        ++ write_uint64_field Field.Message.timestamp clock)

-- A string built from a pointer and a length: the null pointer comes with length 0.
abbrev pub range : Option Bytes → Bytes
range none = []
range (some s) = s

module _ {M : Type 0} (ops : ClipboardManager M) where
  -- A call on the backend.
  abbrev on_clipboard : Dispatcher M → M → (M → M) → Dispatcher M
  on_clipboard d m f = record d { clipboard = some (f m) }

  -- The switch of HandleSetClipboard.
  unfoldable pub apply_clipboard_data :
      Dispatcher M → M → ParsedClipboardData → ℕ → Dispatcher M × Bytes
  apply_clipboard_data d m cd clock =
      if cd.content_type == ContentType.text
      then (on_clipboard d m (ops.set_clipboard_text (range cd.payload)), [])
      else if cd.content_type == ContentType.image
      then (on_clipboard d m (ops.set_clipboard_image (range cd.payload)), [])
      else if cd.content_type == ContentType.files
      then (d, encode_error (text "SET_CLIPBOARD: FILES not yet supported on Linux helper") clock)
      else (d, encode_error (text "SET_CLIPBOARD: unknown content_type") clock)

  unfoldable pub handle_set_clipboard : Dispatcher M → Option Bytes → ℕ → Dispatcher M × Bytes
  unfolding apply_clipboard_data
  handle_set_clipboard d input clock =
      if is_empty (range input)
      then (d, encode_error (text "SET_CLIPBOARD missing clipboard_data") clock)
      else elim (succeeded (parse_clipboard_data (range input))) [
        | none ↦ (d, encode_error (text "SET_CLIPBOARD parse failure") clock)
        | some cd ↦ elim d.clipboard [ none ↦ (d, []) | some m ↦ apply_clipboard_data d m cd clock ]
      ]

  -- The switch of HandleAnnounceDelayed.
  unfoldable pub apply_announcement :
      Dispatcher M → M → ParsedAnnouncement → ℕ → Dispatcher M × Bytes
  apply_announcement d m ann clock =
      if ann.content_type == ContentType.text
      then (on_clipboard d m (ops.announce_delayed_text ann.content_hash), [])
      else if ann.content_type == ContentType.image
      then (on_clipboard d m (ops.announce_delayed_image ann.content_hash), [])
      else if ann.content_type == ContentType.files
      then (on_clipboard d m (ops.announce_delayed_files ann.content_hash), [])
      else (d, encode_error (text "ANNOUNCE_DELAYED: unknown content_type") clock)

  unfoldable pub handle_announce_delayed : Dispatcher M → Option Bytes → ℕ → Dispatcher M × Bytes
  unfolding apply_announcement
  handle_announce_delayed d input clock =
      if is_empty (range input)
      then (d, encode_error (text "ANNOUNCE_DELAYED missing announcement") clock)
      else elim (succeeded (parse_announcement (range input))) [
        | none ↦ (d, encode_error (text "ANNOUNCE_DELAYED parse failure") clock)
        | some ann ↦ elim d.clipboard [ none ↦ (d, []) | some m ↦ apply_announcement d m ann clock ]
      ]

  unfoldable pub handle_provide_data : Dispatcher M → Option Bytes → ℕ → Dispatcher M × Bytes
  handle_provide_data d input clock =
      if is_empty (range input)
      then (d, encode_error (text "PROVIDE_DATA missing payload") clock)
      else elim (succeeded (parse_provide_data (range input))) [
        | none ↦ (d, encode_error (text "PROVIDE_DATA parse failure") clock)
        | some pd ↦ elim d.clipboard [
          | none ↦ (d, [])
          | some m ↦ (on_clipboard d m (ops.provide_data pd.content_hash pd.content), [])
        ]
      ]

  unfoldable pub handle_get_clipboard : Dispatcher M → ℕ → Dispatcher M × Bytes
  handle_get_clipboard d clock = elim d.clipboard [
    | none ↦ (d, encode_error (text "GET_CLIPBOARD: no clipboard backend") clock)
    | some m ↦ (d, encode_clipboard_content_text (range (ops.get_clipboard_text m)) clock)
  ]

  unfoldable pub handle_shutdown : Dispatcher M → Dispatcher M × Bytes
  handle_shutdown d =
      if d.has_shutdown_callback
      then (record d { shutdown_requests = d.shutdown_requests + 1 }, [])
      else (d, [])

  -- The switch of Handle.
  unfoldable pub route : Dispatcher M → ParsedHelperMessage → ℕ → Dispatcher M × Bytes
  route d msg clock =
      if msg.type == MessageType.set_clipboard
      then handle_set_clipboard d msg.clipboard_data clock
      else if msg.type == MessageType.announce_delayed
      then handle_announce_delayed d msg.announcement clock
      else if msg.type == MessageType.provide_data
      then handle_provide_data d msg.provide_data clock
      else if msg.type == MessageType.get_clipboard
      then handle_get_clipboard d clock
      else if msg.type == MessageType.shutdown
      then handle_shutdown d
      else if msg.type == MessageType.file_chunk_request
          || (msg.type == MessageType.file_chunk_data
              || msg.type == MessageType.file_transfer_progress)
      then (d, encode_error (text "FILES path not yet supported on Linux helper") clock)
      else (d, encode_error (text "unknown HelperMessageType") clock)

  unfoldable pub handle : Dispatcher M → Bytes → ℕ → Dispatcher M × Bytes
  handle d frame clock = elim (succeeded (parse_helper_message frame)) [
    | none ↦ (d, encode_error (text "malformed HelperMessage") clock)
    | some msg ↦ route d msg clock
  ]

  unfoldable pub on_connect : Dispatcher M → ℕ → Bytes
  on_connect d clock = encode_ready clock

  -- The two callbacks of Attach.
  unfoldable pub changed_callback : Bool → Callback
  changed_callback has_socket =
      some λ clock utf8.
        if has_socket then some (encode_clipboard_changed_text utf8 [] clock) else none

  unfoldable pub request_callback : Bool → Callback
  request_callback has_socket = some λ clock content_hash.
      if has_socket then some (encode_data_request content_hash ContentType.text clock) else none

  -- `none` is the call of a method on a null `clipboard_`.
  unfoldable pub attach : Dispatcher M → Option (Dispatcher M)
  unfolding changed_callback request_callback
  attach d = if d.attached then some d else elim d.clipboard [
    | none ↦ none
    | some m ↦
        let m' = ops.set_on_clipboard_changed (changed_callback d.has_socket) m in
        let m'' = ops.set_on_data_request (request_callback d.has_socket) m' in
        some (record d { attached = true; clipboard = some m'' })
  ]

  unfoldable pub detach : Dispatcher M → Dispatcher M
  detach d =
      if d.attached
      then (elim d.clipboard [
        | none ↦ record d { attached = false }
        | some m ↦
            let m' = ops.set_on_data_request none (ops.set_on_clipboard_changed none m) in
            record d { attached = false; clipboard = some m' }
      ])
      else d
