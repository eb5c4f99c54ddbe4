-- ===== src/Windows/Codec/Chunks.antt =====
-- windows/src/dispatch_codec.cpp: the chunk messages of a file transfer, both directions.
use clipboard_helper.Prelude.{
  ℕ, ◌%◌, ◌^◌, Bool, false, not, [], ◌++◌, ◌==◌, if◌then◌else◌, Bytes, is_empty,
}
use clipboard_helper.Prelude.Parse.{Parse, parsed, ◌>>=◌}
use clipboard_helper.Proto.MessageType
use clipboard_helper.Proto.Field
use clipboard_helper.Wire.{
  varint, length_delim, write_enum_field, write_uint64_field, write_bool_field, write_string_field,
  write_bytes_field, write_sub_message_field, read_varint, read_length_delim, skip_field,
  parse_fields,
}

-- The buffer `inner` of EncodeFileChunkRequestOutbound.
unfoldable pub file_chunk_request_inner : Bytes → Bytes → ℕ → ℕ → Bytes
file_chunk_request_inner transfer_id file_id offset size =
    write_string_field Field.FileChunkRequest.transfer_id transfer_id
    ++ (write_string_field Field.FileChunkRequest.file_id file_id
        ++ (write_uint64_field Field.FileChunkRequest.offset offset
            ++ write_uint64_field Field.FileChunkRequest.size size))

unfoldable pub encode_file_chunk_request_outbound : Bytes → Bytes → ℕ → ℕ → ℕ → Bytes
encode_file_chunk_request_outbound transfer_id file_id offset size clock =
    write_enum_field Field.Message.type MessageType.file_chunk_request
    ++ (write_sub_message_field Field.Message.file_chunk_request
          (file_chunk_request_inner transfer_id file_id offset size)
        ++ write_uint64_field Field.Message.timestamp clock)

-- The buffer `inner` of EncodeFileChunkData.
unfoldable pub file_chunk_data_inner : Bytes → Bytes → ℕ → Bytes → Bool → Bytes → Bytes
file_chunk_data_inner transfer_id file_id offset content is_last error_msg =
    write_string_field Field.FileChunkData.transfer_id transfer_id
    ++ (write_string_field Field.FileChunkData.file_id file_id
        ++ (write_uint64_field Field.FileChunkData.offset offset
            ++ (write_bytes_field Field.FileChunkData.content content
                ++ (write_bool_field Field.FileChunkData.is_last is_last
                    ++ (if is_empty error_msg
                        then []
                        else write_string_field Field.FileChunkData.error error_msg)))))

unfoldable pub encode_file_chunk_data : Bytes → Bytes → ℕ → Bytes → Bool → Bytes → ℕ → Bytes
encode_file_chunk_data transfer_id file_id offset content is_last error_msg clock =
    write_enum_field Field.Message.type MessageType.file_chunk_data
    ++ (write_sub_message_field Field.Message.file_chunk_data
          (file_chunk_data_inner transfer_id file_id offset content is_last error_msg)
        ++ write_uint64_field Field.Message.timestamp clock)

pub record ParsedFileChunkRequest : Type 0 where
  pub transfer_id : Bytes
  pub file_id : Bytes
  pub offset : ℕ
  pub size : ℕ

abbrev pub no_file_chunk_request : ParsedFileChunkRequest
no_file_chunk_request = record { transfer_id = []; file_id = []; offset = 0; size = 0 }

pub record ParsedFileChunkData : Type 0 where
  pub transfer_id : Bytes
  pub file_id : Bytes
  pub offset : ℕ
  pub content : Bytes
  pub is_last : Bool
  pub error : Bytes

abbrev pub no_file_chunk_data : ParsedFileChunkData
no_file_chunk_data = record {
  transfer_id = [];
  file_id = [];
  offset = 0;
  content = [];
  is_last = false;
  error = [];
}

-- `SkipField(wire)`, then the next round.
abbrev pub skipped : {S : Type 0} → ℕ → S → Bytes → Parse (S × Bytes)
skipped wire out r = do r' ← skip_field wire r; parsed (out, r')

-- The body of the loop of ParseFileChunkRequest, behind ReadTag.
unfoldable pub file_chunk_request_step :
    ℕ → ℕ → ParsedFileChunkRequest → Bytes → Parse (ParsedFileChunkRequest × Bytes)
file_chunk_request_step field wire out r =
    if field == Field.FileChunkRequest.transfer_id
    then (if not (wire == length_delim)
        then skipped wire out r
        else do (s, r') ← read_length_delim r; parsed (record out { transfer_id = s }, r'))
    else if field == Field.FileChunkRequest.file_id
    then (if not (wire == length_delim)
        then skipped wire out r
        else do (s, r') ← read_length_delim r; parsed (record out { file_id = s }, r'))
    else if field == Field.FileChunkRequest.offset
    then (if not (wire == varint)
        then skipped wire out r
        else do (v, r') ← read_varint r; parsed (record out { offset = v }, r'))
    else if field == Field.FileChunkRequest.size
    then (if not (wire == varint)
        then skipped wire out r
        else do (v, r') ← read_varint r; parsed (record out { size = v % 2 ^ 32 }, r'))
    else skipped wire out r

unfoldable pub parse_file_chunk_request : Bytes → Parse ParsedFileChunkRequest
unfolding file_chunk_request_step
parse_file_chunk_request input = parse_fields file_chunk_request_step no_file_chunk_request input

-- The body of the loop of ParseFileChunkData, behind ReadTag.
unfoldable pub file_chunk_data_step :
    ℕ → ℕ → ParsedFileChunkData → Bytes → Parse (ParsedFileChunkData × Bytes)
file_chunk_data_step field wire out r =
    if field == Field.FileChunkData.transfer_id
    then (if not (wire == length_delim)
        then skipped wire out r
        else do (s, r') ← read_length_delim r; parsed (record out { transfer_id = s }, r'))
    else if field == Field.FileChunkData.file_id
    then (if not (wire == length_delim)
        then skipped wire out r
        else do (s, r') ← read_length_delim r; parsed (record out { file_id = s }, r'))
    else if field == Field.FileChunkData.offset
    then (if not (wire == varint)
        then skipped wire out r
        else do (v, r') ← read_varint r; parsed (record out { offset = v }, r'))
    else if field == Field.FileChunkData.content
    then (if not (wire == length_delim)
        then skipped wire out r
        else do (s, r') ← read_length_delim r; parsed (record out { content = s }, r'))
    else if field == Field.FileChunkData.is_last
    then (if not (wire == varint)
        then skipped wire out r
        else do (v, r') ← read_varint r; parsed (record out { is_last = not (v == 0) }, r'))
    else if field == Field.FileChunkData.error
    then (if not (wire == length_delim)
        then skipped wire out r
        else do (s, r') ← read_length_delim r; parsed (record out { error = s }, r'))
    else skipped wire out r

unfoldable pub parse_file_chunk_data : Bytes → Parse ParsedFileChunkData
unfolding file_chunk_data_step
parse_file_chunk_data input = parse_fields file_chunk_data_step no_file_chunk_data input
