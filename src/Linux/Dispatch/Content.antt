-- ===== src/Linux/Dispatch/Content.antt =====
-- linux/src/dispatch.cpp: EncodeClipboardContentText against the parsers.
use clipboard_helper.Prelude.{
  ℕ, ◌+◌, ◌^◌, ◌≤◌, ◌<◌, ◌≡◌, refl, ap, none, some, List, [], ◌∷◌, ◌++◌, arith, if◌then◌else◌,
  Bytes, is_empty, length, length-append,
}
use clipboard_helper.Prelude.Parse.{parsed}
use clipboard_helper.Proto.MessageType
use clipboard_helper.Proto.ContentType
use clipboard_helper.Proto.Field
use clipboard_helper.Wire.Entries.{Entry, entries, fold_entries}
use clipboard_helper.Wire.Written.{write_entries, entries-write_entries}
use clipboard_helper.Wire.Fields.{
  int_entries, chunk_entries, write_entries-append, write_enum_field_small,
  chunk_entries-IsWritable, length-chunk_entries, length-int_entries,
}
use clipboard_helper.Linux.Codec.{
  no_message, no_clipboard_data, parse_helper_message, parse_clipboard_data,
}
use clipboard_helper.Linux.Codec.Encoded.{envelope_fields, envelope_fields-IsWritable, writers}
use clipboard_helper.Linux.Codec.Refines.{
  update_clipboard_data, parse_helper_message-entries, parse_clipboard_data-entries,
}
use clipboard_helper.Linux.Dispatch.{encode_content_inner, encode_clipboard_content_text}

content_fields : Bytes → List Entry
content_fields utf8 =
    int_entries Field.ClipboardData.content_type ContentType.text
    ++ chunk_entries Field.ClipboardData.payload utf8

encode_content_inner-fields :
    (utf8 : Bytes) → encode_content_inner utf8 ≡ write_entries (content_fields utf8)
unfolding encode_content_inner content_fields
encode_content_inner-fields utf8 = simp (writers, write_enum_field_small 1 1 (omega arith))

encode_content-fields :
    (utf8 : Bytes) (clock : ℕ)
    → encode_clipboard_content_text utf8 clock
      ≡ write_entries (envelope_fields 12 2 (encode_content_inner utf8) clock)
unfolding encode_clipboard_content_text
encode_content-fields utf8 clock = simp (writers, write_enum_field_small 1 12 (omega arith))

length-encode_content_inner : (utf8 : Bytes) → length (encode_content_inner utf8) ≤ length utf8 + 40
unfolding content_fields
length-encode_content_inner utf8 = rw (encode_content_inner-fields utf8) (
    omega (
      arith,
      ap length (write_entries-append (int_entries 1 1) (chunk_entries 2 utf8)),
      length-append (write_entries (int_entries 1 1)) (write_entries (chunk_entries 2 utf8)),
      length-int_entries 1 1,
      length-chunk_entries 2 utf8,
    ))

-- The reply to GET_CLIPBOARD, for a text shorter than 2 ^ 63 and a 64-bit clock, parses as
-- CLIPBOARD_CONTENT and carries the ClipboardData of the text.
pub parse-encode_clipboard_content_text :
    (utf8 : Bytes) (clock : ℕ)
    → length utf8 < 2 ^ 63
    → clock < 2 ^ 64
    → parse_helper_message (encode_clipboard_content_text utf8 clock)
      ≡ parsed (record no_message {
        type = MessageType.clipboard_content;
        clipboard_data = some (encode_content_inner utf8);
      })
parse-encode_clipboard_content_text utf8 clock hl hc =
    let inner = encode_content_inner utf8 in
    let read : entries (write_entries (envelope_fields 12 2 inner clock))
        ≡ parsed (envelope_fields 12 2 inner clock) =
      entries-write_entries (envelope_fields 12 2 inner clock) (
        envelope_fields-IsWritable 12 2 inner clock (omega arith) (omega arith) (omega arith)
          (omega (arith, length-encode_content_inner utf8)) hc) in
    rw
      (
        encode_content-fields utf8 clock,
        parse_helper_message-entries (write_entries (envelope_fields 12 2 inner clock)),
        read,
      )
      (ground arith)

-- ParseClipboardData reads the text, shorter than 2 ^ 64, from the ClipboardData of the reply.
pub parse-encode_content_inner :
    (utf8 : Bytes)
    → length utf8 < 2 ^ 64
    → parse_clipboard_data (encode_content_inner utf8)
      ≡ parsed (record no_clipboard_data {
        content_type = ContentType.text;
        payload = if is_empty utf8 then none else some utf8;
      })
unfolding content_fields
parse-encode_content_inner utf8 hl =
    let read : entries (write_entries (content_fields utf8)) ≡ parsed (content_fields utf8) =
      entries-write_entries (content_fields utf8)
        ((omega arith, omega arith), chunk_entries-IsWritable 2 utf8 (omega arith) hl) in
    rw
      (
        encode_content_inner-fields utf8,
        parse_clipboard_data-entries (write_entries (content_fields utf8)),
        read,
      )
      (fold utf8)
  where
    fold :
        (utf8 : Bytes)
        → fold_entries update_clipboard_data no_clipboard_data (parsed (content_fields utf8))
          ≡ parsed (record no_clipboard_data {
            content_type = ContentType.text;
            payload = if is_empty utf8 then none else some utf8;
          })
    fold [] = refl
    fold (c ∷ s) = refl
