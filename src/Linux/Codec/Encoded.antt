-- ===== src/Linux/Codec/Encoded.antt =====
-- The fields that each encoder writes.
use clipboard_helper.Prelude.{
  ℕ, ◌+◌, ◌^◌, ◌≤◌, ◌<◌, ◌≡◌, ap, List, [], ◌∷◌, ◌++◌, arith, Bytes, All, All-append, length,
  length-append, append-nil,
}
use clipboard_helper.Prelude.Parse.{parsed}
use clipboard_helper.Proto.MessageType
use clipboard_helper.Proto.ContentType
use clipboard_helper.Proto.Field
use clipboard_helper.Wire.{sign_extend}
use clipboard_helper.Wire.Entries.{Entry, chunk, entries}
use clipboard_helper.Wire.Written.{write_entries, IsWritable, entries-write_entries}
use clipboard_helper.Wire.Fields.{
  int_entries, chunk_entries, write_entries-append, write_uint64_field-entries,
  write_enum_field-entries, write_enum_field_small, write_sub_message_field-entries,
  guarded-write_string_field, guarded-write_bytes_field, int_entries-IsWritable,
  chunk_entries-IsWritable, sign_extend-lt, length-chunk_entries, length-int_entries,
}
use clipboard_helper.Linux.Codec.{
  encode_ready, encode_error, encode_clipboard_data_inner_text, encode_clipboard_changed_text,
  encode_data_request_inner, encode_data_request,
}

abbrev pub ready_fields : ℕ → List Entry
ready_fields clock =
    int_entries Field.Message.type MessageType.ready ++ int_entries Field.Message.timestamp clock

abbrev pub error_fields : Bytes → ℕ → List Entry
error_fields message clock =
    int_entries Field.Message.type MessageType.error
    ++ (chunk_entries Field.Message.error_message message
        ++ int_entries Field.Message.timestamp clock)

abbrev pub text_fields : Bytes → Bytes → List Entry
text_fields payload hash =
    int_entries Field.ClipboardData.content_type ContentType.text
    ++ (chunk_entries Field.ClipboardData.payload payload
        ++ chunk_entries Field.ClipboardData.content_hash hash)

-- An envelope that holds one sub-message.
abbrev pub envelope_fields : ℕ → ℕ → Bytes → ℕ → List Entry
envelope_fields type field inner clock =
    int_entries Field.Message.type type
    ++ ((field, chunk inner) ∷ [] ++ int_entries Field.Message.timestamp clock)

abbrev pub request_fields : Bytes → ℕ → List Entry
request_fields hash content_type =
    chunk_entries Field.DataRequest.content_hash hash
    ++ int_entries Field.DataRequest.content_type (sign_extend content_type)

pub ruleset writers = (
  write_entries-append, append-nil, guarded-write_string_field, guarded-write_bytes_field,
  write_uint64_field-entries, write_sub_message_field-entries,
)

encode_ready-fields : (clock : ℕ) → encode_ready clock ≡ write_entries (ready_fields clock)
unfolding encode_ready
encode_ready-fields clock = simp (writers, write_enum_field_small 1 14 (omega arith))

encode_error-fields :
    (message : Bytes) (clock : ℕ)
    → encode_error message clock ≡ write_entries (error_fields message clock)
unfolding encode_error
encode_error-fields message clock = simp (writers, write_enum_field_small 1 13 (omega arith))

encode_text-fields :
    (payload hash : Bytes)
    → encode_clipboard_data_inner_text payload hash ≡ write_entries (text_fields payload hash)
unfolding encode_clipboard_data_inner_text
encode_text-fields payload hash = simp (writers, write_enum_field_small 1 1 (omega arith))

encode_clipboard_changed_text-fields :
    (payload hash : Bytes) (clock : ℕ)
    → encode_clipboard_changed_text payload hash clock
      ≡ write_entries (envelope_fields 10 2 (encode_clipboard_data_inner_text payload hash) clock)
unfolding encode_clipboard_changed_text
encode_clipboard_changed_text-fields payload hash clock =
    simp (writers, write_enum_field_small 1 10 (omega arith))

encode_request-fields :
    (hash : Bytes) (content_type : ℕ)
    → encode_data_request_inner hash content_type ≡ write_entries (request_fields hash content_type)
unfolding encode_data_request_inner
encode_request-fields hash content_type = simp (writers, write_enum_field-entries)

encode_data_request-fields :
    (hash : Bytes) (content_type clock : ℕ)
    → encode_data_request hash content_type clock
      ≡ write_entries (envelope_fields 11 5 (encode_data_request_inner hash content_type) clock)
unfolding encode_data_request
encode_data_request-fields hash content_type clock =
    simp (writers, write_enum_field_small 1 11 (omega arith))

-- The fields of each frame read back.
pub entries-encode_ready :
    (clock : ℕ) → clock < 2 ^ 64 → entries (encode_ready clock) ≡ parsed (ready_fields clock)
entries-encode_ready clock h = rw (encode_ready-fields clock) (
    entries-write_entries (ready_fields clock)
      ((omega arith, omega arith), int_entries-IsWritable 7 clock (omega arith) h))

pub entries-encode_error :
    (message : Bytes) (clock : ℕ)
    → length message < 2 ^ 64
    → clock < 2 ^ 64
    → entries (encode_error message clock) ≡ parsed (error_fields message clock)
entries-encode_error message clock hm h = rw (encode_error-fields message clock) (
    entries-write_entries (error_fields message clock) (
      (omega arith, omega arith),
      All-append IsWritable (chunk_entries 6 message) (int_entries 7 clock)
          (chunk_entries-IsWritable 6 message (omega arith) hm)
          (int_entries-IsWritable 7 clock (omega arith) h),
    ))

pub entries-encode_text :
    (payload hash : Bytes)
    → length payload < 2 ^ 64
    → length hash < 2 ^ 64
    → entries (encode_clipboard_data_inner_text payload hash) ≡ parsed (text_fields payload hash)
entries-encode_text payload hash hp hh = rw (encode_text-fields payload hash) (
    entries-write_entries (text_fields payload hash) (
      (omega arith, omega arith),
      All-append IsWritable (chunk_entries 2 payload) (chunk_entries 3 hash)
          (chunk_entries-IsWritable 2 payload (omega arith) hp)
          (chunk_entries-IsWritable 3 hash (omega arith) hh),
    ))

pub envelope_fields-IsWritable :
    (type field : ℕ) (inner : Bytes) (clock : ℕ)
    → 0 < type
    → type < 2 ^ 31
    → field < 2 ^ 29
    → length inner < 2 ^ 64
    → clock < 2 ^ 64
    → All IsWritable (envelope_fields type field inner clock)
envelope_fields-IsWritable type field inner clock h0 ht hf hi hc =
    All-append IsWritable (int_entries 1 type) ((field, chunk inner) ∷ [] ++ int_entries 7 clock)
      (int_entries-IsWritable 1 type (omega arith) (omega arith))
      ((hf, hi), int_entries-IsWritable 7 clock (omega arith) hc)

pub length-encode_text :
    (payload hash : Bytes)
    → length (encode_clipboard_data_inner_text payload hash) ≤ length payload + length hash + 60
length-encode_text payload hash = rw (encode_text-fields payload hash) (
    omega (
      arith,
      ap length (
          write_entries-append (int_entries 1 1) (chunk_entries 2 payload ++ chunk_entries 3 hash)),
      length-append (write_entries (int_entries 1 1))
          (write_entries (chunk_entries 2 payload ++ chunk_entries 3 hash)),
      ap length (write_entries-append (chunk_entries 2 payload) (chunk_entries 3 hash)),
      length-append (write_entries (chunk_entries 2 payload))
          (write_entries (chunk_entries 3 hash)),
      length-int_entries 1 1,
      length-chunk_entries 2 payload,
      length-chunk_entries 3 hash,
    ))

pub entries-encode_clipboard_changed_text :
    (payload hash : Bytes) (clock : ℕ)
    → length payload + length hash < 2 ^ 63
    → clock < 2 ^ 64
    → entries (encode_clipboard_changed_text payload hash clock)
      ≡ parsed (envelope_fields 10 2 (encode_clipboard_data_inner_text payload hash) clock)
entries-encode_clipboard_changed_text payload hash clock hl hc =
    let inner = encode_clipboard_data_inner_text payload hash in
    rw (encode_clipboard_changed_text-fields payload hash clock) (
      entries-write_entries (envelope_fields 10 2 inner clock) (
        envelope_fields-IsWritable 10 2 inner clock (omega arith) (omega arith) (omega arith)
          (omega (arith, length-encode_text payload hash)) hc))

length-encode_request :
    (hash : Bytes) (content_type : ℕ)
    → length (encode_data_request_inner hash content_type) ≤ length hash + 40
length-encode_request hash content_type = rw (encode_request-fields hash content_type) (
    omega (
      arith,
      ap length
          (write_entries-append (chunk_entries 1 hash) (int_entries 2 (sign_extend content_type))),
      length-append (write_entries (chunk_entries 1 hash))
          (write_entries (int_entries 2 (sign_extend content_type))),
      length-chunk_entries 1 hash,
      length-int_entries 2 (sign_extend content_type),
    ))

pub entries-encode_request :
    (hash : Bytes) (content_type : ℕ)
    → length hash < 2 ^ 64
    → content_type < 2 ^ 32
    → entries (encode_data_request_inner hash content_type)
      ≡ parsed (request_fields hash content_type)
entries-encode_request hash content_type hh ht = rw (encode_request-fields hash content_type) (
    entries-write_entries (request_fields hash content_type) (
      All-append IsWritable (chunk_entries 1 hash) (int_entries 2 (sign_extend content_type))
        (chunk_entries-IsWritable 1 hash (omega arith) hh)
        (int_entries-IsWritable 2 (sign_extend content_type) (omega arith)
          (sign_extend-lt content_type ht))))

pub entries-encode_data_request :
    (hash : Bytes) (content_type clock : ℕ)
    → length hash < 2 ^ 63
    → clock < 2 ^ 64
    → entries (encode_data_request hash content_type clock)
      ≡ parsed (envelope_fields 11 5 (encode_data_request_inner hash content_type) clock)
entries-encode_data_request hash content_type clock hh hc =
    let inner = encode_data_request_inner hash content_type in
    rw (encode_data_request-fields hash content_type clock) (
      entries-write_entries (envelope_fields 11 5 inner clock) (
        envelope_fields-IsWritable 11 5 inner clock (omega arith) (omega arith) (omega arith)
          (omega (arith, length-encode_request hash content_type)) hc))
