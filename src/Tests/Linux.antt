-- ===== src/Tests/Linux.antt =====
-- Witnesses and runs for the Linux codec and Dispatcher.
use clipboard_helper.Prelude.{◌≡◌, refl, none, some, true, List, [], ◌∷◌, arith, Bytes}
use clipboard_helper.Prelude.Parse.{parsed}
use clipboard_helper.Proto.MessageType
use clipboard_helper.Proto.ContentType
use clipboard_helper.Proto.Field
use clipboard_helper.Wire.Entries.{entries}
use clipboard_helper.Linux.Codec.{encode_data_request_inner}
use clipboard_helper.Linux.Codec.Encoded.{envelope_fields, request_fields}
use clipboard_helper.Linux.Manager.{ClipboardManager, pushed}
use clipboard_helper.Linux.Dispatch.{Dispatcher, handle, request_callback}
use clipboard_helper.Linux.Dispatch.Delivery.{envelope, provide_data_of, handle-provide_data}
use clipboard_helper.Linux.Dispatch.Callbacks.{request_callback_fields}

-- A backend that records what it is given, the latest first.
abbrev recorder : ClipboardManager (List Bytes)
recorder = record {
  set_clipboard_text = λ utf8 m. utf8 ∷ m;
  set_clipboard_image = λ webp_bytes m. webp_bytes ∷ m;
  announce_delayed_text = λ content_hash m. content_hash ∷ m;
  announce_delayed_image = λ content_hash m. content_hash ∷ m;
  announce_delayed_files = λ content_hash m. content_hash ∷ m;
  provide_data = λ content_hash bytes m. bytes ∷ content_hash ∷ m;
  get_clipboard_text = λ m. none;
  set_on_clipboard_changed = λ cb m. m;
  set_on_data_request = λ cb m. m;
}

abbrev hi : Bytes
hi = b'h' ∷ b'i' ∷ []

abbrev hash : Bytes
hash = b'a' ∷ b'b' ∷ []

abbrev live : Dispatcher (List Bytes)
live = record {
  clipboard = some [];
  has_socket = true;
  has_shutdown_callback = true;
  attached = true;
  shutdown_requests = 0;
}

handle-provide_data_example :
    handle recorder live
      (envelope MessageType.provide_data Field.Message.provide_data (provide_data_of hash hi))
      9
    ≡ (record live { clipboard = some (hi ∷ hash ∷ []) }, [])
handle-provide_data_example =
    handle-provide_data recorder live 9 [] refl hash hi (omega arith) (omega arith)

request_callback_fields_example :
    (frame : Bytes) × (pushed (request_callback recorder true) 9 hash ≡ some frame)
    × (entries frame
        ≡ parsed (
            envelope_fields MessageType.data_request 5
              (encode_data_request_inner hash ContentType.text)
              9))
    × (entries (encode_data_request_inner hash ContentType.text)
        ≡ parsed (request_fields hash ContentType.text))
request_callback_fields_example =
    request_callback_fields recorder hash 9 (omega arith) (omega arith)
