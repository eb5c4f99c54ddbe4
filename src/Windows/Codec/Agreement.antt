-- ===== src/Windows/Codec/Agreement.antt =====
-- windows/src/dispatch_codec.cpp against linux/src/dispatch_codec.cpp and dispatch.cpp: the frames that
-- both helpers send.
use clipboard_helper.Prelude.{
  ℕ, ◌≡◌, refl, sym, ◌∙◌, append-nil, Option, [], if◌then◌else◌, is_empty, Bytes,
}
use clipboard_helper.Proto.MessageType
use clipboard_helper.Proto.ContentType
use clipboard_helper.Wire.{write_bytes_field, write_string_field}
use clipboard_helper.Wire.Fields.{
  guarded-write_string_field, guarded-write_bytes_field, write_string_field-entries,
  write_bytes_field-entries,
}
use clipboard_helper.Linux.Codec
use clipboard_helper.Linux.Dispatch.{encode_content_inner, encode_clipboard_content_text}
use clipboard_helper.Windows.Codec.Files.{Wide}
use clipboard_helper.Windows.Codec.Encoders
use clipboard_helper.Windows.Codec.Encoders.{ClipboardSnapshot}

-- The Linux encoders leave an empty field out before its writer would.
string_guard :
    (field : ℕ) (s : Bytes)
    → (if is_empty s then [] else write_string_field field s) ≡ write_string_field field s
string_guard field s = guarded-write_string_field field s ∙ sym (write_string_field-entries field s)

bytes_guard :
    (field : ℕ) (s : Bytes)
    → (if is_empty s then [] else write_bytes_field field s) ≡ write_bytes_field field s
bytes_guard field s = guarded-write_bytes_field field s ∙ sym (write_bytes_field-entries field s)

-- What ReadClipboard fills in for text.
abbrev pub text_snapshot : Wide → ClipboardSnapshot
text_snapshot wide = record {
  content_type = ContentType.text;
  text = wide;
  image_png = [];
  file_paths = [];
  virtual_files = [];
}

-- The two helpers write the same bytes: READY, ERROR and DATA_REQUEST for the same arguments; and for a
-- snapshot of text, CLIPBOARD_CONTENT, and CLIPBOARD_CHANGED with an empty hash, for the converted
-- text.
pub encoders-agree :
    (wide_to_utf8 : Wide → Bytes) (get_file_attributes : Wide → Option (ℕ × ℕ)) (wide : Wide)
    (message hash : Bytes) (kind clock : ℕ)
    → (Encoders.encode_ready clock ≡ Codec.encode_ready clock)
      × (Encoders.encode_error message clock ≡ Codec.encode_error message clock)
      × (Encoders.encode_data_request hash kind clock ≡ Codec.encode_data_request hash kind clock)
      × (Encoders.encode_clipboard_envelope MessageType.clipboard_content
            (Encoders.encode_clipboard_data wide_to_utf8 get_file_attributes (text_snapshot wide))
            clock
          ≡ encode_clipboard_content_text (wide_to_utf8 wide) clock)
      × (Encoders.encode_clipboard_envelope MessageType.clipboard_changed
            (Encoders.encode_clipboard_data wide_to_utf8 get_file_attributes (text_snapshot wide))
            clock
          ≡ Codec.encode_clipboard_changed_text (wide_to_utf8 wide) [] clock)
unfolding Encoders.encode_ready Codec.encode_ready Encoders.encode_error Codec.encode_error
    Encoders.encode_data_request Codec.encode_data_request Encoders.data_request_inner
    Codec.encode_data_request_inner Encoders.encode_clipboard_envelope
    Encoders.encode_clipboard_data Encoders.snapshot_content encode_clipboard_content_text
    encode_content_inner Codec.encode_clipboard_changed_text Codec.encode_clipboard_data_inner_text
encoders-agree wide_to_utf8 get_file_attributes wide message hash kind clock =
    (refl, refl, simp string_guard, simp bytes_guard, simp (bytes_guard, append-nil))
