-- ===== src/Linux/Codec/RoundTrip.antt =====
-- What the parsers make of the frames that the encoders produce.
use clipboard_helper.Prelude.{
  ℕ, ◌+◌, ◌^◌, ◌<◌, ◌≡◌, refl, none, some, [], ◌∷◌, arith, if◌then◌else◌, Bytes, is_empty, length,
}
use clipboard_helper.Prelude.Parse.{parsed}
use clipboard_helper.Proto.MessageType
use clipboard_helper.Proto.ContentType
use clipboard_helper.Wire.Entries.{fold_entries}
use clipboard_helper.Linux.Codec.{
  encode_ready, encode_error, encode_clipboard_data_inner_text, encode_clipboard_changed_text,
  no_message, no_clipboard_data, parse_helper_message, parse_clipboard_data,
}
use clipboard_helper.Linux.Codec.Encoded.{
  text_fields, entries-encode_ready, entries-encode_error, entries-encode_text,
  entries-encode_clipboard_changed_text,
}
use clipboard_helper.Linux.Codec.Refines.{
  update_clipboard_data, parse_helper_message-entries, parse_clipboard_data-entries,
}

pub parse-encode_ready :
    (clock : ℕ)
    → clock < 2 ^ 64
    → parse_helper_message (encode_ready clock)
      ≡ parsed (record no_message { type = MessageType.ready })
parse-encode_ready clock h =
    rw (parse_helper_message-entries (encode_ready clock), entries-encode_ready clock h)
      (ground arith)

-- An ERROR frame with a message shorter than 2 ^ 64 and a 64-bit clock parses as one.
pub parse-encode_error :
    (message : Bytes) (clock : ℕ)
    → length message < 2 ^ 64
    → clock < 2 ^ 64
    → parse_helper_message (encode_error message clock)
      ≡ parsed (record no_message { type = MessageType.error })
parse-encode_error message clock hm h =
    rw
      (
        parse_helper_message-entries (encode_error message clock),
        entries-encode_error message clock hm h,
      )
      (ground arith)

-- ParseClipboardData reads the payload and the hash, each shorter than 2 ^ 64, from the text
-- ClipboardData; an empty payload is not on the wire, and stays the null pointer.
pub parse-encode_text :
    (payload hash : Bytes)
    → length payload < 2 ^ 64
    → length hash < 2 ^ 64
    → parse_clipboard_data (encode_clipboard_data_inner_text payload hash)
      ≡ parsed (record no_clipboard_data {
        content_type = ContentType.text;
        payload = if is_empty payload then none else some payload;
        content_hash = hash;
      })
parse-encode_text payload hash hp hh =
    rw
      (
        parse_clipboard_data-entries (encode_clipboard_data_inner_text payload hash),
        entries-encode_text payload hash hp hh,
      )
      (fold payload hash)
  where
    fold :
        (payload hash : Bytes)
        → fold_entries update_clipboard_data no_clipboard_data (parsed (text_fields payload hash))
          ≡ parsed (record no_clipboard_data {
            content_type = ContentType.text;
            payload = if is_empty payload then none else some payload;
            content_hash = hash;
          })
    fold [] [] = refl
    fold [] (c ∷ h) = refl
    fold (b ∷ p) [] = refl
    fold (b ∷ p) (c ∷ h) = refl

-- A CLIPBOARD_CHANGED frame, for strings that together are shorter than 2 ^ 63 and a 64-bit clock,
-- parses as one and carries the ClipboardData of the text.
pub parse-encode_clipboard_changed_text :
    (payload hash : Bytes) (clock : ℕ)
    → length payload + length hash < 2 ^ 63
    → clock < 2 ^ 64
    → parse_helper_message (encode_clipboard_changed_text payload hash clock)
      ≡ parsed (record no_message {
        type = MessageType.clipboard_changed;
        clipboard_data = some (encode_clipboard_data_inner_text payload hash);
      })
parse-encode_clipboard_changed_text payload hash clock hl hc =
    rw
      (
        parse_helper_message-entries (encode_clipboard_changed_text payload hash clock),
        entries-encode_clipboard_changed_text payload hash clock hl hc,
      )
      (ground arith)
