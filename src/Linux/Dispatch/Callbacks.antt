-- ===== src/Linux/Dispatch/Callbacks.antt =====
-- Attach and Detach, and the frames that the installed callbacks push.
use clipboard_helper.Prelude.{
  ℕ, ◌^◌, ◌<◌, ◌≡◌, refl, none, some, true, false, [], arith, Bytes, length, if◌then◌else◌,
  is_empty,
}
use clipboard_helper.Prelude.Parse.{parsed}
use clipboard_helper.Proto.MessageType
use clipboard_helper.Proto.ContentType
use clipboard_helper.Wire.Entries.{entries}
use clipboard_helper.Linux.Codec.{
  encode_clipboard_data_inner_text, encode_clipboard_changed_text, encode_data_request_inner,
  encode_data_request, no_message, no_clipboard_data, parse_helper_message, parse_clipboard_data,
}
use clipboard_helper.Linux.Codec.Encoded.{
  envelope_fields, request_fields, entries-encode_request, entries-encode_data_request,
}
use clipboard_helper.Linux.Codec.RoundTrip.{parse-encode_clipboard_changed_text, parse-encode_text}
use clipboard_helper.Linux.Manager.{ClipboardManager, pushed}
use clipboard_helper.Linux.Manager.Stub.{StubClipboardManager, stub_manager}
use clipboard_helper.Linux.Dispatch.{Dispatcher, changed_callback, request_callback, attach, detach}

module _ {M : Type 0} (ops : ClipboardManager M) where
  -- A second Attach changes nothing, and neither does a second Detach.
  pub attach_twice : (d d' : Dispatcher M) → attach ops d ≡ some d' → attach ops d' ≡ some d'
  unfolding attach
  attach_twice d d' h = ground arith

  pub detach_twice : (d : Dispatcher M) → detach ops (detach ops d) ≡ detach ops d
  unfolding detach
  detach_twice d = ground arith

  -- Attach calls a method on a null backend exactly if it is not attached yet and there is none.
  pub attach_null :
      (d : Dispatcher M) → attach ops d ≡ none → (d.attached ≡ false) × (d.clipboard ≡ none)
  unfolding attach
  attach_null d h = ground arith

  -- With a socket, for a text shorter than 2 ^ 63 and a 64-bit clock: the frame that the changed
  -- callback pushes parses as CLIPBOARD_CHANGED and its ClipboardData as the reported text.
  pub changed_callback_text :
      (utf8 : Bytes) (clock : ℕ)
      → length utf8 < 2 ^ 63
      → clock < 2 ^ 64
      → (frame : Bytes) × (pushed (changed_callback ops true) clock utf8 ≡ some frame)
        × (parse_helper_message frame
            ≡ parsed (record no_message {
              type = MessageType.clipboard_changed;
              clipboard_data = some (encode_clipboard_data_inner_text utf8 []);
            }))
        × (parse_clipboard_data (encode_clipboard_data_inner_text utf8 [])
            ≡ parsed (record no_clipboard_data {
              content_type = ContentType.text;
              payload = if is_empty utf8 then none else some utf8;
            }))
  unfolding changed_callback
  changed_callback_text utf8 clock hu hc = (
    encode_clipboard_changed_text utf8 [] clock,
    refl,
    parse-encode_clipboard_changed_text utf8 [] clock (omega arith) hc,
    parse-encode_text utf8 [] (omega arith) (omega arith),
  )

  -- With a socket, for a hash shorter than 2 ^ 63 and a 64-bit clock: the frame that the request
  -- callback pushes is a DATA_REQUEST of the hash with TEXT as its content type.
  pub request_callback_fields :
      (hash : Bytes) (clock : ℕ)
      → length hash < 2 ^ 63
      → clock < 2 ^ 64
      → (frame : Bytes) × (pushed (request_callback ops true) clock hash ≡ some frame)
        × (entries frame
            ≡ parsed (
                envelope_fields MessageType.data_request 5
                  (encode_data_request_inner hash ContentType.text)
                  clock))
        × (entries (encode_data_request_inner hash ContentType.text)
            ≡ parsed (request_fields hash ContentType.text))
  unfolding request_callback
  request_callback_fields hash clock hh hc = (
    encode_data_request hash ContentType.text clock,
    refl,
    entries-encode_data_request hash 1 clock hh hc,
    entries-encode_request hash 1 (omega arith) (omega arith),
  )

-- Over the stub, for a Dispatcher that is not attached and has a backend: Attach installs both
-- callbacks, and Detach empties them again.
pub attach-detach_stub :
    (d : Dispatcher StubClipboardManager) (m : StubClipboardManager)
    → d.attached ≡ false
    → d.clipboard ≡ some m
    → (d' : Dispatcher StubClipboardManager) × (attach stub_manager d ≡ some d')
      × (d'.clipboard
          ≡ some (record m {
            on_changed = changed_callback stub_manager d.has_socket;
            on_request = request_callback stub_manager d.has_socket;
          }))
      × ((detach stub_manager d').clipboard
          ≡ some (record m { on_changed = none; on_request = none }))
unfolding attach detach stub_manager
attach-detach_stub d m idle live = (
  record d {
    attached = true;
    clipboard = some (record m {
      on_changed = changed_callback stub_manager d.has_socket;
      on_request = request_callback stub_manager d.has_socket;
    });
  },
  rw (idle, live),
  refl,
  refl,
)
