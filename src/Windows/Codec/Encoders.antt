-- ===== src/Windows/Codec/Encoders.antt =====
-- windows/src/dispatch_codec.cpp: the encoders but those of the chunk messages. The clock is given
-- by the value that it returns.
use clipboard_helper.Prelude.{
  ℕ, ◌+◌, Option, List, [], ◌∷◌, ◌++◌, ◌==◌, if◌then◌else◌, Bytes, is_empty,
}
use clipboard_helper.Proto.MessageType
use clipboard_helper.Proto.ContentType
use clipboard_helper.Proto.Field
use clipboard_helper.Wire.{
  write_enum_field, write_uint64_field, write_string_field, write_bytes_field,
  write_sub_message_field,
}
use clipboard_helper.Windows.Codec.Files.{
  Wide, VirtualFileEntry, encode_file_metadata, encode_virtual_file_metadata,
}

unfoldable pub encode_ready : ℕ → Bytes
encode_ready clock =
    write_enum_field Field.Message.type MessageType.ready
    ++ write_uint64_field Field.Message.timestamp clock

unfoldable pub encode_error : Bytes → ℕ → Bytes
encode_error message clock =
    write_enum_field Field.Message.type MessageType.error
    ++ ((if is_empty message then [] else write_string_field Field.Message.error_message message)
        ++ write_uint64_field Field.Message.timestamp clock)

-- `struct ClipboardSnapshot`, without the IDataObject pointer that no encoder reads.
pub record ClipboardSnapshot : Type 0 where
  pub content_type : ℕ
  pub text : Wide
  pub image_png : Bytes
  pub file_paths : List Wide
  pub virtual_files : List VirtualFileEntry

-- The loop `for (i = 0; i < xs.size(); ++i)` of EncodeClipboardData over the entries left, from
-- index `i` on.
unfoldable pub write_files {ℓ} : {A : Type ℓ} → (ℕ → A → Bytes) → ℕ → List A → Bytes
write_files encode i [] = []
write_files encode i (x ∷ xs) =
    write_sub_message_field Field.ClipboardData.files (encode i x) ++ write_files encode (i + 1) xs

module _ (wide_to_utf8 : Wide → Bytes) (get_file_attributes : Wide → Option (ℕ × ℕ)) where
  -- The switch of EncodeClipboardData.
  unfoldable pub snapshot_content : ClipboardSnapshot → Bytes
  snapshot_content snap =
      if snap.content_type == ContentType.text
      then write_bytes_field Field.ClipboardData.payload (wide_to_utf8 snap.text)
      else if snap.content_type == ContentType.image
      then write_bytes_field Field.ClipboardData.payload snap.image_png
      else if snap.content_type == ContentType.files
      then write_files (encode_file_metadata wide_to_utf8 get_file_attributes) 0 snap.file_paths
        ++ write_files (encode_virtual_file_metadata wide_to_utf8) 0 snap.virtual_files
      else []

  unfoldable pub encode_clipboard_data : ClipboardSnapshot → Bytes
  encode_clipboard_data snap =
      write_enum_field Field.ClipboardData.content_type snap.content_type ++ snapshot_content snap

unfoldable pub encode_clipboard_envelope : ℕ → Bytes → ℕ → Bytes
encode_clipboard_envelope outer clipboard_data clock =
    write_enum_field Field.Message.type outer
    ++ (write_sub_message_field Field.Message.clipboard_data clipboard_data
        ++ write_uint64_field Field.Message.timestamp clock)

-- The buffer `inner` of EncodeDataRequest.
unfoldable pub data_request_inner : Bytes → ℕ → Bytes
data_request_inner content_hash content_type =
    write_string_field Field.DataRequest.content_hash content_hash
    ++ write_enum_field Field.DataRequest.content_type content_type

unfoldable pub encode_data_request : Bytes → ℕ → ℕ → Bytes
encode_data_request content_hash content_type clock =
    write_enum_field Field.Message.type MessageType.data_request
    ++ (write_sub_message_field Field.Message.data_request
          (data_request_inner content_hash content_type)
        ++ write_uint64_field Field.Message.timestamp clock)
