-- ===== src/Linux/Codec.antt =====
-- linux/src/dispatch_codec.h and dispatch_codec.cpp: the encoders and parsers of HelperMessage.
-- A string is its bytes. A pointer into the inbound buffer with its length is the range that it
-- names, and `none` where the pointer is null. The clock is given by the value that it returns.
pub mod Encoded
pub mod Refines
pub mod RoundTrip
use clipboard_helper.Prelude.{
  ℕ, ◌%◌, ◌^◌, Option, none, some, ◌&&◌, [], ◌++◌, ◌==◌, if◌then◌else◌, Bytes, is_empty,
}
use clipboard_helper.Prelude.Parse.{Parse, parsed, ◌>>=◌}
use clipboard_helper.Proto.MessageType
use clipboard_helper.Proto.ContentType
use clipboard_helper.Proto.Field
use clipboard_helper.Wire.{
  varint, length_delim, write_enum_field, write_uint64_field, write_string_field, write_bytes_field,
  write_sub_message_field, read_varint, read_length_delim, skip_field, parse_fields,
}

unfoldable pub encode_ready : ℕ → Bytes
encode_ready clock =
    write_enum_field Field.Message.type MessageType.ready
    ++ write_uint64_field Field.Message.timestamp clock

unfoldable pub encode_error : Bytes → ℕ → Bytes
encode_error message clock =
    write_enum_field Field.Message.type MessageType.error
    ++ ((if is_empty message then [] else write_string_field Field.Message.error_message message)
        ++ write_uint64_field Field.Message.timestamp clock)

unfoldable pub encode_clipboard_data_inner_text : Bytes → Bytes → Bytes
encode_clipboard_data_inner_text utf8_payload content_hash =
    write_enum_field Field.ClipboardData.content_type ContentType.text
    ++ ((if is_empty utf8_payload
          then []
          else write_bytes_field Field.ClipboardData.payload utf8_payload)
        ++ (if is_empty content_hash
            then []
            else write_string_field Field.ClipboardData.content_hash content_hash))

unfoldable pub encode_clipboard_changed_text : Bytes → Bytes → ℕ → Bytes
encode_clipboard_changed_text utf8_payload content_hash clock =
    let inner = encode_clipboard_data_inner_text utf8_payload content_hash in
    write_enum_field Field.Message.type MessageType.clipboard_changed
    ++ (write_sub_message_field Field.Message.clipboard_data inner
        ++ write_uint64_field Field.Message.timestamp clock)

unfoldable pub encode_data_request_inner : Bytes → ℕ → Bytes
encode_data_request_inner content_hash content_type =
    (if is_empty content_hash
      then []
      else write_string_field Field.DataRequest.content_hash content_hash)
    ++ write_enum_field Field.DataRequest.content_type content_type

unfoldable pub encode_data_request : Bytes → ℕ → ℕ → Bytes
encode_data_request content_hash content_type clock =
    let inner = encode_data_request_inner content_hash content_type in
    write_enum_field Field.Message.type MessageType.data_request
    ++ (write_sub_message_field Field.Message.data_request inner
        ++ write_uint64_field Field.Message.timestamp clock)

pub record ParsedHelperMessage : Type 0 where
  pub type : ℕ
  pub clipboard_data : Option Bytes
  pub announcement : Option Bytes
  pub provide_data : Option Bytes
  pub file_chunk_request : Option Bytes
  pub file_chunk_data : Option Bytes

abbrev pub no_message : ParsedHelperMessage
no_message = record {
  type = MessageType.unspecified;
  clipboard_data = none;
  announcement = none;
  provide_data = none;
  file_chunk_request = none;
  file_chunk_data = none;
}

pub record ParsedClipboardData : Type 0 where
  pub content_type : ℕ
  pub payload : Option Bytes
  pub content_hash : Bytes
  pub transfer_id : Bytes

abbrev pub no_clipboard_data : ParsedClipboardData
no_clipboard_data = record {
  content_type = ContentType.unspecified;
  payload = none;
  content_hash = [];
  transfer_id = [];
}

pub record ParsedAnnouncement : Type 0 where
  pub content_type : ℕ
  pub content_hash : Bytes
  pub transfer_id : Bytes

abbrev pub no_announcement : ParsedAnnouncement
no_announcement = record {
  content_type = ContentType.unspecified;
  content_hash = [];
  transfer_id = [];
}

pub record ParsedProvideData : Type 0 where
  pub content_hash : Bytes
  pub content : Bytes

abbrev pub no_provide_data : ParsedProvideData
no_provide_data = record { content_hash = []; content = [] }

-- The body of the loop of ParseHelperMessage, behind ReadTag.
unfoldable pub helper_message_step :
    ℕ → ℕ → ParsedHelperMessage → Bytes → Parse (ParsedHelperMessage × Bytes)
helper_message_step field wire out r =
    if field == Field.Message.type && wire == varint
    then (do (v, r') ← read_varint r; parsed (record out { type = v % 2 ^ 32 }, r'))
    else if field == Field.Message.clipboard_data && wire == length_delim
    then (do (s, r') ← read_length_delim r; parsed (record out { clipboard_data = some s }, r'))
    else if field == Field.Message.announcement && wire == length_delim
    then (do (s, r') ← read_length_delim r; parsed (record out { announcement = some s }, r'))
    else if field == Field.Message.provide_data && wire == length_delim
    then (do (s, r') ← read_length_delim r; parsed (record out { provide_data = some s }, r'))
    else if field == Field.Message.file_chunk_request && wire == length_delim
    then (do (s, r') ← read_length_delim r; parsed (record out { file_chunk_request = some s }, r'))
    else if field == Field.Message.file_chunk_data && wire == length_delim
    then (do (s, r') ← read_length_delim r; parsed (record out { file_chunk_data = some s }, r'))
    else do r' ← skip_field wire r; parsed (out, r')

unfoldable pub parse_helper_message : Bytes → Parse ParsedHelperMessage
unfolding helper_message_step
parse_helper_message input = parse_fields helper_message_step no_message input

-- The body of the loop of ParseClipboardData.
unfoldable pub clipboard_data_step :
    ℕ → ℕ → ParsedClipboardData → Bytes → Parse (ParsedClipboardData × Bytes)
clipboard_data_step field wire out r =
    if field == Field.ClipboardData.content_type && wire == varint
    then (do (v, r') ← read_varint r; parsed (record out { content_type = v % 2 ^ 32 }, r'))
    else if field == Field.ClipboardData.payload && wire == length_delim
    then (do (s, r') ← read_length_delim r; parsed (record out { payload = some s }, r'))
    else if field == Field.ClipboardData.content_hash && wire == length_delim
    then (do (s, r') ← read_length_delim r; parsed (record out { content_hash = s }, r'))
    else if field == Field.ClipboardData.transfer_id && wire == length_delim
    then (do (s, r') ← read_length_delim r; parsed (record out { transfer_id = s }, r'))
    else do r' ← skip_field wire r; parsed (out, r')

unfoldable pub parse_clipboard_data : Bytes → Parse ParsedClipboardData
unfolding clipboard_data_step
parse_clipboard_data input = parse_fields clipboard_data_step no_clipboard_data input

-- The body of the loop of ParseAnnouncement.
unfoldable pub announcement_step :
    ℕ → ℕ → ParsedAnnouncement → Bytes → Parse (ParsedAnnouncement × Bytes)
announcement_step field wire out r =
    if field == Field.Announcement.content_type && wire == varint
    then (do (v, r') ← read_varint r; parsed (record out { content_type = v % 2 ^ 32 }, r'))
    else if field == Field.Announcement.content_hash && wire == length_delim
    then (do (s, r') ← read_length_delim r; parsed (record out { content_hash = s }, r'))
    else if field == Field.Announcement.transfer_id && wire == length_delim
    then (do (s, r') ← read_length_delim r; parsed (record out { transfer_id = s }, r'))
    else do r' ← skip_field wire r; parsed (out, r')

unfoldable pub parse_announcement : Bytes → Parse ParsedAnnouncement
unfolding announcement_step
parse_announcement input = parse_fields announcement_step no_announcement input

-- The body of the loop of ParseProvideData.
unfoldable pub provide_data_step :
    ℕ → ℕ → ParsedProvideData → Bytes → Parse (ParsedProvideData × Bytes)
provide_data_step field wire out r =
    if field == Field.ProvideData.content_hash && wire == length_delim
    then (do (s, r') ← read_length_delim r; parsed (record out { content_hash = s }, r'))
    else if field == Field.ProvideData.content && wire == length_delim
    then (do (s, r') ← read_length_delim r; parsed (record out { content = s }, r'))
    else do r' ← skip_field wire r; parsed (out, r')

unfoldable pub parse_provide_data : Bytes → Parse ParsedProvideData
unfolding provide_data_step
parse_provide_data input = parse_fields provide_data_step no_provide_data input
