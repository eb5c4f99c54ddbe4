-- ===== src/Windows/Codec.antt =====
-- windows/src/dispatch_codec.h and dispatch_codec.cpp: the parsers of HelperMessage and of its
-- sub-messages but the file ones. A pointer into the inbound buffer with its length is the range
-- that it names, and `none` where the pointer is null.
pub mod Agreement
pub mod Encoders
pub mod Files
pub mod Metadata
pub mod Chunks
pub mod Refines
pub mod RoundTrip
pub mod ChunkData
use clipboard_helper.Prelude.{
  ℕ, ◌%◌, ◌^◌, Option, none, some, ◌&&◌, List, [], ◌∷◌, ◌++◌, ◌==◌, if◌then◌else◌, Bytes,
}
use clipboard_helper.Prelude.Parse.{Parse, parsed, ◌>>=◌}
use clipboard_helper.Proto.MessageType
use clipboard_helper.Proto.ContentType
use clipboard_helper.Proto.Field
use clipboard_helper.Wire.{
  varint, length_delim, read_varint, read_length_delim, skip_field, parse_fields,
}

pub record ParsedHelperMessage : Type 0 where
  pub type : ℕ
  pub clipboard_data : Option Bytes
  pub announcement : Option Bytes
  pub provide_data : Option Bytes
  pub file_chunk_request : Option Bytes
  pub file_chunk_data : Option Bytes

abbrev pub no_message : ParsedHelperMessage
no_message = record {
  type = MessageType.unspecified;
  clipboard_data = none;
  announcement = none;
  provide_data = none;
  file_chunk_request = none;
  file_chunk_data = none;
}

pub record ParsedClipboardData : Type 0 where
  pub content_type : ℕ
  pub payload : Option Bytes
  pub files : List Bytes

abbrev pub no_clipboard_data : ParsedClipboardData
no_clipboard_data = record { content_type = ContentType.unspecified; payload = none; files = [] }

pub record ParsedAnnouncement : Type 0 where
  pub content_type : ℕ
  pub content_hash : Bytes
  pub files : List Bytes
  pub transfer_id : Bytes

abbrev pub no_announcement : ParsedAnnouncement
no_announcement = record {
  content_type = ContentType.unspecified;
  content_hash = [];
  files = [];
  transfer_id = [];
}

pub record ParsedProvideData : Type 0 where
  pub content_hash : Bytes
  pub content : Bytes

abbrev pub no_provide_data : ParsedProvideData
no_provide_data = record { content_hash = []; content = [] }

-- The body of the loop of ParseHelperMessage, behind ReadTag.
unfoldable pub helper_message_step :
    ℕ → ℕ → ParsedHelperMessage → Bytes → Parse (ParsedHelperMessage × Bytes)
helper_message_step field wire out r =
    if field == Field.Message.type && wire == varint
    then (do (v, r') ← read_varint r; parsed (record out { type = v % 2 ^ 32 }, r'))
    else if field == Field.Message.clipboard_data && wire == length_delim
    then (do (s, r') ← read_length_delim r; parsed (record out { clipboard_data = some s }, r'))
    else if field == Field.Message.announcement && wire == length_delim
    then (do (s, r') ← read_length_delim r; parsed (record out { announcement = some s }, r'))
    else if field == Field.Message.provide_data && wire == length_delim
    then (do (s, r') ← read_length_delim r; parsed (record out { provide_data = some s }, r'))
    else if field == Field.Message.file_chunk_request && wire == length_delim
    then (do (s, r') ← read_length_delim r; parsed (record out { file_chunk_request = some s }, r'))
    else if field == Field.Message.file_chunk_data && wire == length_delim
    then (do (s, r') ← read_length_delim r; parsed (record out { file_chunk_data = some s }, r'))
    else do r' ← skip_field wire r; parsed (out, r')

unfoldable pub parse_helper_message : Bytes → Parse ParsedHelperMessage
unfolding helper_message_step
parse_helper_message input = parse_fields helper_message_step no_message input

-- The body of the loop of ParseClipboardData.
unfoldable pub clipboard_data_step :
    ℕ → ℕ → ParsedClipboardData → Bytes → Parse (ParsedClipboardData × Bytes)
clipboard_data_step field wire out r =
    if field == Field.ClipboardData.content_type && wire == varint
    then (do (v, r') ← read_varint r; parsed (record out { content_type = v % 2 ^ 32 }, r'))
    else if field == Field.ClipboardData.payload && wire == length_delim
    then (do (s, r') ← read_length_delim r; parsed (record out { payload = some s }, r'))
    else if field == Field.ClipboardData.files && wire == length_delim
    then (do (s, r') ← read_length_delim r; parsed (record out { files = out.files ++ s ∷ [] }, r'))
    else do r' ← skip_field wire r; parsed (out, r')

unfoldable pub parse_clipboard_data : Bytes → Parse ParsedClipboardData
unfolding clipboard_data_step
parse_clipboard_data input = parse_fields clipboard_data_step no_clipboard_data input

-- The body of the loop of ParseAnnouncement.
unfoldable pub announcement_step :
    ℕ → ℕ → ParsedAnnouncement → Bytes → Parse (ParsedAnnouncement × Bytes)
announcement_step field wire out r =
    if field == Field.Announcement.content_type && wire == varint
    then (do (v, r') ← read_varint r; parsed (record out { content_type = v % 2 ^ 32 }, r'))
    else if field == Field.Announcement.content_hash && wire == length_delim
    then (do (s, r') ← read_length_delim r; parsed (record out { content_hash = s }, r'))
    else if field == Field.Announcement.files && wire == length_delim
    then (do (s, r') ← read_length_delim r; parsed (record out { files = out.files ++ s ∷ [] }, r'))
    else if field == Field.Announcement.transfer_id && wire == length_delim
    then (do (s, r') ← read_length_delim r; parsed (record out { transfer_id = s }, r'))
    else do r' ← skip_field wire r; parsed (out, r')

unfoldable pub parse_announcement : Bytes → Parse ParsedAnnouncement
unfolding announcement_step
parse_announcement input = parse_fields announcement_step no_announcement input

-- The body of the loop of ParseProvideData.
unfoldable pub provide_data_step :
    ℕ → ℕ → ParsedProvideData → Bytes → Parse (ParsedProvideData × Bytes)
provide_data_step field wire out r =
    if field == Field.ProvideData.content_hash && wire == length_delim
    then (do (s, r') ← read_length_delim r; parsed (record out { content_hash = s }, r'))
    else if field == Field.ProvideData.content && wire == length_delim
    then (do (s, r') ← read_length_delim r; parsed (record out { content = s }, r'))
    else do r' ← skip_field wire r; parsed (out, r')

unfoldable pub parse_provide_data : Bytes → Parse ParsedProvideData
unfolding provide_data_step
parse_provide_data input = parse_fields provide_data_step no_provide_data input
