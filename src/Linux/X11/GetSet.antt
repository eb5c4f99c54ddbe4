-- ===== src/Linux/X11/GetSet.antt =====
-- linux/src/dispatch.cpp over clipboard_manager_x11.cpp: SET_CLIPBOARD and then GET_CLIPBOARD.
use clipboard_helper.Prelude.{
  ℕ, ◌+◌, ◌^◌, ◌<◌, ◌≡◌, refl, ◌∙◌, Option, some, List, [], ◌∷◌, arith, Bytes, length,
}
use clipboard_helper.Prelude.Parse.{parsed}
use clipboard_helper.Proto.MessageType
use clipboard_helper.Proto.Field
use clipboard_helper.Wire.Entries.{Entry, int}
use clipboard_helper.Wire.Written.{write_entries, entries-write_entries}
use clipboard_helper.Linux.Codec.{
  encode_clipboard_data_inner_text, no_message, parse_helper_message,
}
use clipboard_helper.Linux.Codec.Refines.{parse_helper_message-entries}
use clipboard_helper.Linux.Manager.{ClipboardManager}
use clipboard_helper.Linux.Dispatch.{
  Dispatcher, encode_clipboard_content_text, range, handle_get_clipboard, route, handle,
}
use clipboard_helper.Linux.Dispatch.Delivery.{envelope, handle-set_text}
use clipboard_helper.Linux.X11.{X11Manager, x11_manager, set_clipboard_text, invoke_on_main}

-- GET_CLIPBOARD, as the parent writes it.
unfoldable pub get_request : Bytes
get_request = write_entries ((Field.Message.type, int MessageType.get_clipboard) ∷ [])

parse-get_request :
    parse_helper_message get_request
    ≡ parsed (record no_message { type = MessageType.get_clipboard })
unfolding get_request
parse-get_request =
    let fields : List Entry = (Field.Message.type, int MessageType.get_clipboard) ∷ [] in
    rw (
      parse_helper_message-entries (write_entries fields),
      entries-write_entries fields ((omega arith, omega arith), tt),
    )

module _ {M : Type 0} (ops : ClipboardManager M) (d : Dispatcher M) (clock : ℕ) (m : M)
    (live : d.clipboard ≡ some m) where
  handle-get_request :
      handle ops d get_request clock
      ≡ (d, encode_clipboard_content_text (range (ops.get_clipboard_text m)) clock)
  unfolding handle
  handle-get_request =
      rw (handle, parse-get_request) (unfold route handle_get_clipboard in rw live refl)

module _ {I : Type 0} (decode : Bytes → Option I) where
  -- SET_CLIPBOARD with a text and a hash, together shorter than 2 ^ 63, over a live X11 manager, and
  -- then GET_CLIPBOARD: the reply carries that text, also if the main thread has not run yet, and GET
  -- changes nothing.
  pub get_set :
      (d : Dispatcher (X11Manager I)) (m : X11Manager I) (utf8 hash : Bytes) (clock clock' : ℕ)
      → d.clipboard ≡ some m
      → length utf8 + length hash < 2 ^ 63
      → let d' =
          (handle
            (x11_manager decode)
            d
            (envelope MessageType.set_clipboard Field.Message.clipboard_data
              (encode_clipboard_data_inner_text utf8 hash))
            clock).0 in
        handle (x11_manager decode) d' get_request clock'
        ≡ (d', encode_clipboard_content_text utf8 clock')
  get_set d m utf8 hash clock clock' live short =
      rw (handle-set_text (x11_manager decode) d clock m live utf8 hash short) (
        handle-get_request (x11_manager decode)
          (record d { clipboard = some ((x11_manager decode).set_clipboard_text utf8 m) }) clock'
          ((x11_manager decode).set_clipboard_text utf8 m) refl
        ∙ unfold x11_manager set_clipboard_text invoke_on_main in refl)
