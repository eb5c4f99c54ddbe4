-- ===== src/Windows/Codec/Refines.antt =====
-- windows/src/dispatch_codec.cpp: each parser against a pure update over the fields of a message.
use clipboard_helper.Prelude.{
  ◌%◌, ◌^◌, ◌≡◌, some, not, [], ◌∷◌, ◌++◌, arith, ◌==◌, if◌then◌else◌, Bytes,
}
use clipboard_helper.Proto.Field
use clipboard_helper.Wire.Entries.{
  Entry, int, chunk, passed, read_payload, entries, Refines, fold_entries, parse_fields-entries,
}
use clipboard_helper.Wire.{parse_fields, skip_field}
use clipboard_helper.Windows.Codec.{
  ParsedHelperMessage, ParsedClipboardData, ParsedAnnouncement, ParsedProvideData, no_message,
  no_clipboard_data, no_announcement, no_provide_data, helper_message_step, clipboard_data_step,
  announcement_step, provide_data_step, parse_helper_message, parse_clipboard_data,
  parse_announcement, parse_provide_data,
}
use clipboard_helper.Windows.Codec.Files.{FileMetadata, no_file_metadata, file_metadata_step}
use clipboard_helper.Windows.Codec.Chunks.{
  ParsedFileChunkRequest, ParsedFileChunkData, no_file_chunk_request, no_file_chunk_data,
  file_chunk_request_step, file_chunk_data_step, parse_file_chunk_request, parse_file_chunk_data,
}

-- What one field of a HelperMessage sets.
abbrev pub update_helper_message : ParsedHelperMessage → Entry → ParsedHelperMessage
update_helper_message out (field, int v) =
    if field == Field.Message.type then record out { type = v % 2 ^ 32 } else out
update_helper_message out (field, chunk s) =
    if field == Field.Message.clipboard_data
    then record out { clipboard_data = some s }
    else if field == Field.Message.announcement
    then record out { announcement = some s }
    else if field == Field.Message.provide_data
    then record out { provide_data = some s }
    else if field == Field.Message.file_chunk_request
    then record out { file_chunk_request = some s }
    else if field == Field.Message.file_chunk_data
    then record out { file_chunk_data = some s }
    else out
update_helper_message out (field, passed) = out

helper_message_step-Refines : Refines helper_message_step update_helper_message
unfolding helper_message_step read_payload skip_field
helper_message_step-Refines field wire s r = ground arith

-- What one field of a ClipboardData sets.
abbrev pub update_clipboard_data : ParsedClipboardData → Entry → ParsedClipboardData
update_clipboard_data out (field, int v) =
    if field == Field.ClipboardData.content_type
    then record out { content_type = v % 2 ^ 32 }
    else out
update_clipboard_data out (field, chunk s) =
    if field == Field.ClipboardData.payload
    then record out { payload = some s }
    else if field == Field.ClipboardData.files
    then record out { files = out.files ++ s ∷ [] }
    else out
update_clipboard_data out (field, passed) = out

clipboard_data_step-Refines : Refines clipboard_data_step update_clipboard_data
unfolding clipboard_data_step read_payload skip_field
clipboard_data_step-Refines field wire s r = ground arith

-- What one field of a ClipboardAnnouncement sets.
abbrev pub update_announcement : ParsedAnnouncement → Entry → ParsedAnnouncement
update_announcement out (field, int v) =
    if field == Field.Announcement.content_type
    then record out { content_type = v % 2 ^ 32 }
    else out
update_announcement out (field, chunk s) =
    if field == Field.Announcement.content_hash
    then record out { content_hash = s }
    else if field == Field.Announcement.files
    then record out { files = out.files ++ s ∷ [] }
    else if field == Field.Announcement.transfer_id
    then record out { transfer_id = s }
    else out
update_announcement out (field, passed) = out

announcement_step-Refines : Refines announcement_step update_announcement
unfolding announcement_step read_payload skip_field
announcement_step-Refines field wire s r = ground arith

-- What one field of a HelperProvideData sets.
abbrev pub update_provide_data : ParsedProvideData → Entry → ParsedProvideData
update_provide_data out (field, int v) = out
update_provide_data out (field, chunk s) =
    if field == Field.ProvideData.content_hash
    then record out { content_hash = s }
    else if field == Field.ProvideData.content
    then record out { content = s }
    else out
update_provide_data out (field, passed) = out

provide_data_step-Refines : Refines provide_data_step update_provide_data
unfolding provide_data_step read_payload skip_field
provide_data_step-Refines field wire s r = ground arith

-- What one field of a FileMetadata sets.
abbrev pub update_file_metadata : FileMetadata → Entry → FileMetadata
update_file_metadata out (field, int v) =
    if field == Field.FileMetadata.file_size
    then record out { file_size = v }
    else if field == Field.FileMetadata.is_directory
    then record out { is_directory = not (v == 0) }
    else out
update_file_metadata out (field, chunk s) =
    if field == Field.FileMetadata.file_id
    then record out { file_id = s }
    else if field == Field.FileMetadata.filename
    then record out { filename = s }
    else if field == Field.FileMetadata.relative_path
    then record out { relative_path = s }
    else out
update_file_metadata out (field, passed) = out

file_metadata_step-Refines : Refines file_metadata_step update_file_metadata
unfolding file_metadata_step read_payload skip_field
file_metadata_step-Refines field wire s r = ground arith

-- What one field of a HelperFileChunkRequest sets.
abbrev pub update_file_chunk_request : ParsedFileChunkRequest → Entry → ParsedFileChunkRequest
update_file_chunk_request out (field, int v) =
    if field == Field.FileChunkRequest.offset
    then record out { offset = v }
    else if field == Field.FileChunkRequest.size
    then record out { size = v % 2 ^ 32 }
    else out
update_file_chunk_request out (field, chunk s) =
    if field == Field.FileChunkRequest.transfer_id
    then record out { transfer_id = s }
    else if field == Field.FileChunkRequest.file_id
    then record out { file_id = s }
    else out
update_file_chunk_request out (field, passed) = out

file_chunk_request_step-Refines : Refines file_chunk_request_step update_file_chunk_request
unfolding file_chunk_request_step read_payload skip_field
file_chunk_request_step-Refines field wire s r = ground arith

-- What one field of a HelperFileChunkData sets.
abbrev pub update_file_chunk_data : ParsedFileChunkData → Entry → ParsedFileChunkData
update_file_chunk_data out (field, int v) =
    if field == Field.FileChunkData.offset
    then record out { offset = v }
    else if field == Field.FileChunkData.is_last
    then record out { is_last = not (v == 0) }
    else out
update_file_chunk_data out (field, chunk s) =
    if field == Field.FileChunkData.transfer_id
    then record out { transfer_id = s }
    else if field == Field.FileChunkData.file_id
    then record out { file_id = s }
    else if field == Field.FileChunkData.content
    then record out { content = s }
    else if field == Field.FileChunkData.error
    then record out { error = s }
    else out
update_file_chunk_data out (field, passed) = out

file_chunk_data_step-Refines : Refines file_chunk_data_step update_file_chunk_data
unfolding file_chunk_data_step read_payload skip_field
file_chunk_data_step-Refines field wire s r = ground arith

-- Windows' ParseHelperMessage, ParseClipboardData, ParseAnnouncement and ParseProvideData on any
-- input: the result is the fold of the update over the message's fields.
pub parse_messages-entries :
    (r : Bytes)
    → (parse_helper_message r ≡ fold_entries update_helper_message no_message (entries r))
      × (parse_clipboard_data r ≡ fold_entries update_clipboard_data no_clipboard_data (entries r))
      × (parse_announcement r ≡ fold_entries update_announcement no_announcement (entries r))
      × (parse_provide_data r ≡ fold_entries update_provide_data no_provide_data (entries r))
unfolding parse_helper_message parse_clipboard_data parse_announcement parse_provide_data
parse_messages-entries r = (
  parse_fields-entries update_helper_message helper_message_step helper_message_step-Refines
      no_message r,
  parse_fields-entries update_clipboard_data clipboard_data_step clipboard_data_step-Refines
      no_clipboard_data r,
  parse_fields-entries update_announcement announcement_step announcement_step-Refines
      no_announcement r,
  parse_fields-entries update_provide_data provide_data_step provide_data_step-Refines
      no_provide_data r,
)

pub parse_file_metadata-entries :
    (r : Bytes)
    → parse_fields file_metadata_step no_file_metadata r
      ≡ fold_entries update_file_metadata no_file_metadata (entries r)
parse_file_metadata-entries r =
    parse_fields-entries update_file_metadata file_metadata_step file_metadata_step-Refines
      no_file_metadata r

pub parse_chunks-entries :
    (r : Bytes)
    → (parse_file_chunk_request r
        ≡ fold_entries update_file_chunk_request no_file_chunk_request (entries r))
      × (parse_file_chunk_data r
          ≡ fold_entries update_file_chunk_data no_file_chunk_data (entries r))
unfolding parse_file_chunk_request parse_file_chunk_data
parse_chunks-entries r = (
  parse_fields-entries update_file_chunk_request file_chunk_request_step
      file_chunk_request_step-Refines no_file_chunk_request r,
  parse_fields-entries update_file_chunk_data file_chunk_data_step file_chunk_data_step-Refines
      no_file_chunk_data r,
)
