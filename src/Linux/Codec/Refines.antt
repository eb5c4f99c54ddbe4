-- ===== src/Linux/Codec/Refines.antt =====
-- Each parser is a fold over the fields of its input: what it fills in depends on the fields alone.
use clipboard_helper.Prelude.{◌%◌, ◌^◌, ◌≡◌, some, ◌==◌, if◌then◌else◌, Bytes, arith}
use clipboard_helper.Proto.Field
use clipboard_helper.Wire.{skip_field}
use clipboard_helper.Wire.Entries.{
  int, chunk, passed, Entry, read_payload, Refines, entries, fold_entries, parse_fields-entries,
}
use clipboard_helper.Linux.Codec.{
  ParsedHelperMessage, no_message, helper_message_step, parse_helper_message, ParsedClipboardData,
  no_clipboard_data, clipboard_data_step, parse_clipboard_data, ParsedAnnouncement, no_announcement,
  announcement_step, parse_announcement, ParsedProvideData, no_provide_data, provide_data_step,
  parse_provide_data,
}

-- What one field of an envelope sets. Other fields, and known numbers with another payload, set nothing.
abbrev pub update_helper_message : ParsedHelperMessage → Entry → ParsedHelperMessage
update_helper_message out (field, int v) =
    if field == Field.Message.type then record out { type = v % 2 ^ 32 } else out
update_helper_message out (field, chunk s) =
    if field == Field.Message.clipboard_data
    then record out { clipboard_data = some s }
    else if field == Field.Message.announcement
    then record out { announcement = some s }
    else if field == Field.Message.provide_data
    then record out { provide_data = some s }
    else if field == Field.Message.file_chunk_request
    then record out { file_chunk_request = some s }
    else if field == Field.Message.file_chunk_data
    then record out { file_chunk_data = some s }
    else out
update_helper_message out (field, passed) = out

pub helper_message_step-Refines : Refines helper_message_step update_helper_message
unfolding helper_message_step read_payload skip_field
helper_message_step-Refines field wire s r = ground arith

-- What one field of a ClipboardData sets.
abbrev pub update_clipboard_data : ParsedClipboardData → Entry → ParsedClipboardData
update_clipboard_data out (field, int v) =
    if field == Field.ClipboardData.content_type
    then record out { content_type = v % 2 ^ 32 }
    else out
update_clipboard_data out (field, chunk s) =
    if field == Field.ClipboardData.payload
    then record out { payload = some s }
    else if field == Field.ClipboardData.content_hash
    then record out { content_hash = s }
    else if field == Field.ClipboardData.transfer_id
    then record out { transfer_id = s }
    else out
update_clipboard_data out (field, passed) = out

clipboard_data_step-Refines : Refines clipboard_data_step update_clipboard_data
unfolding clipboard_data_step read_payload skip_field
clipboard_data_step-Refines field wire s r = ground arith

-- What one field of a ClipboardAnnouncement sets.
abbrev pub update_announcement : ParsedAnnouncement → Entry → ParsedAnnouncement
update_announcement out (field, int v) =
    if field == Field.Announcement.content_type
    then record out { content_type = v % 2 ^ 32 }
    else out
update_announcement out (field, chunk s) =
    if field == Field.Announcement.content_hash
    then record out { content_hash = s }
    else if field == Field.Announcement.transfer_id
    then record out { transfer_id = s }
    else out
update_announcement out (field, passed) = out

announcement_step-Refines : Refines announcement_step update_announcement
unfolding announcement_step read_payload skip_field
announcement_step-Refines field wire s r = ground arith

-- What one field of a HelperProvideData sets.
abbrev pub update_provide_data : ParsedProvideData → Entry → ParsedProvideData
update_provide_data out (field, int v) = out
update_provide_data out (field, chunk s) =
    if field == Field.ProvideData.content_hash
    then record out { content_hash = s }
    else if field == Field.ProvideData.content
    then record out { content = s }
    else out
update_provide_data out (field, passed) = out

provide_data_step-Refines : Refines provide_data_step update_provide_data
unfolding provide_data_step read_payload skip_field
provide_data_step-Refines field wire s r = ground arith

-- ParseHelperMessage on any input is the fold of the update over the fields of the message, and
-- fails exactly where these cannot be read.
pub parse_helper_message-entries :
    (r : Bytes) → parse_helper_message r ≡ fold_entries update_helper_message no_message (entries r)
unfolding parse_helper_message
parse_helper_message-entries r =
    parse_fields-entries update_helper_message helper_message_step helper_message_step-Refines
      no_message r

-- ParseClipboardData on any input is the fold of the update over the fields of the message, and
-- fails exactly where these cannot be read.
pub parse_clipboard_data-entries :
    (r : Bytes)
    → parse_clipboard_data r ≡ fold_entries update_clipboard_data no_clipboard_data (entries r)
unfolding parse_clipboard_data
parse_clipboard_data-entries r =
    parse_fields-entries update_clipboard_data clipboard_data_step clipboard_data_step-Refines
      no_clipboard_data r

pub parse_announcement-entries :
    (r : Bytes)
    → parse_announcement r ≡ fold_entries update_announcement no_announcement (entries r)
unfolding parse_announcement
parse_announcement-entries r =
    parse_fields-entries update_announcement announcement_step announcement_step-Refines
      no_announcement r

pub parse_provide_data-entries :
    (r : Bytes)
    → parse_provide_data r ≡ fold_entries update_provide_data no_provide_data (entries r)
unfolding parse_provide_data
parse_provide_data-entries r =
    parse_fields-entries update_provide_data provide_data_step provide_data_step-Refines
      no_provide_data r
