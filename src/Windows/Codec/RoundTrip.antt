-- ===== src/Windows/Codec/RoundTrip.antt =====
-- windows/src/dispatch_codec.cpp: EncodeFileChunkRequestOutbound against its parsers.
use clipboard_helper.Prelude.{
  ℕ, ◌+◌, ◌%◌, ◌^◌, ◌≤◌, ◌<◌, ◌≡◌, refl, some, List, ◌++◌, arith, Bytes, All, All-append, length,
}
use mathlib.Core.List.{foldl, foldl-append}
use clipboard_helper.Prelude.Parse.{parsed}
use clipboard_helper.Proto.MessageType
use clipboard_helper.Wire.{write_tag}
use clipboard_helper.Wire.Entries.{Entry, fold_entries}
use clipboard_helper.Wire.Written.{write_entries, IsWritable, entries-write_entries}
use clipboard_helper.Wire.Fields.{
  int_entries, chunk_entries, write_entries-append, write_uint64_field-entries,
  write_bool_field-entries, write_string_field-entries, write_bytes_field-entries,
  write_sub_message_field-entries, guarded-write_string_field, write_enum_field_small,
  int_entries-IsWritable, chunk_entries-IsWritable, length-chunk_entries, length-int_entries,
  length-two_parts, fold_chunk, fold_int,
}
use clipboard_helper.Linux.Codec.Encoded.{envelope_fields, envelope_fields-IsWritable}
use clipboard_helper.Windows.Codec.{no_message, parse_helper_message}
use clipboard_helper.Windows.Codec.Chunks.{
  no_file_chunk_request, file_chunk_request_inner, encode_file_chunk_request_outbound,
  parse_file_chunk_request,
}
use clipboard_helper.Windows.Codec.Refines.{
  update_helper_message, update_file_chunk_request, parse_messages-entries, parse_chunks-entries,
}

pub ruleset inner_writers = (
  write_entries-append, write_uint64_field-entries, write_bool_field-entries,
  write_string_field-entries, write_bytes_field-entries, guarded-write_string_field,
  write_sub_message_field-entries,
)

request_fields : Bytes → Bytes → ℕ → ℕ → List Entry
request_fields t f o n =
    chunk_entries 1 t ++ (chunk_entries 2 f ++ (int_entries 3 o ++ int_entries 4 n))

request_inner-fields :
    (t f : Bytes) (o n : ℕ)
    → file_chunk_request_inner t f o n ≡ write_entries (request_fields t f o n)
unfolding file_chunk_request_inner request_fields
request_inner-fields t f o n = simp inner_writers

request-fields :
    (t f : Bytes) (o n clock : ℕ)
    → encode_file_chunk_request_outbound t f o n clock
      ≡ write_entries (envelope_fields 15 8 (file_chunk_request_inner t f o n) clock)
unfolding encode_file_chunk_request_outbound write_tag
request-fields t f o n clock = simp (inner_writers, write_enum_field_small 1 15 (omega arith))

length-request_inner :
    (t f : Bytes) (o n : ℕ)
    → length (file_chunk_request_inner t f o n) ≤ length t + 20 + (length f + 20 + (20 + 20))
unfolding request_fields
length-request_inner t f o n = rw (request_inner-fields t f o n) (
    length-two_parts (chunk_entries 1 t) _ _ _ (length-chunk_entries 1 t) (
      length-two_parts (chunk_entries 2 f) _ _ _ (length-chunk_entries 2 f) (
        length-two_parts (int_entries 3 o) _ _ _ (length-int_entries 3 o)
          (length-int_entries 4 n))))

request_fields-IsWritable :
    (t f : Bytes) (o n : ℕ)
    → length t < 2 ^ 64
    → length f < 2 ^ 64
    → o < 2 ^ 64
    → n < 2 ^ 64
    → All IsWritable (request_fields t f o n)
unfolding request_fields
request_fields-IsWritable t f o n ht hf ho hn =
    All-append IsWritable (chunk_entries 1 t) _ (chunk_entries-IsWritable 1 t (omega arith) ht) (
      All-append IsWritable (chunk_entries 2 f) _ (chunk_entries-IsWritable 2 f (omega arith) hf) (
        All-append IsWritable (int_entries 3 o) _ (int_entries-IsWritable 3 o (omega arith) ho)
          (int_entries-IsWritable 4 n (omega arith) hn)))

fold-request :
    (t f : Bytes) (o n : ℕ)
    → foldl update_file_chunk_request no_file_chunk_request (request_fields t f o n)
      ≡ record { transfer_id = t; file_id = f; offset = o; size = n % 2 ^ 32 }
unfolding request_fields
fold-request t f o n = rw (
  foldl-append update_file_chunk_request no_file_chunk_request (chunk_entries 1 t)
      (chunk_entries 2 f ++ (int_entries 3 o ++ int_entries 4 n)),
  fold_chunk update_file_chunk_request 1 no_file_chunk_request t refl,
  foldl-append update_file_chunk_request (record no_file_chunk_request { transfer_id = t })
      (chunk_entries 2 f) (int_entries 3 o ++ int_entries 4 n),
  fold_chunk update_file_chunk_request 2 (record no_file_chunk_request { transfer_id = t }) f refl,
  foldl-append update_file_chunk_request
      (record no_file_chunk_request { transfer_id = t; file_id = f }) (int_entries 3 o)
      (int_entries 4 n),
  fold_int update_file_chunk_request 3
      (record no_file_chunk_request { transfer_id = t; file_id = f }) o refl,
  fold_int update_file_chunk_request 4
      (record no_file_chunk_request { transfer_id = t; file_id = f; offset = o }) n refl,
)

-- A frame with a chunk sub-message: the sub-message is what its parser is given.
pub parse-envelope :
    (type field : ℕ) (inner : Bytes) (clock : ℕ)
    → 0 < type
    → type < 2 ^ 31
    → field < 2 ^ 29
    → length inner < 2 ^ 64
    → clock < 2 ^ 64
    → parse_helper_message (write_entries (envelope_fields type field inner clock))
      ≡ fold_entries update_helper_message no_message
          (parsed (envelope_fields type field inner clock))
parse-envelope type field inner clock h0 ht hf hi hc = rw (
  (parse_messages-entries (write_entries (envelope_fields type field inner clock))).0,
  entries-write_entries (envelope_fields type field inner clock)
      (envelope_fields-IsWritable type field inner clock h0 ht hf hi hc),
)

-- EncodeFileChunkRequestOutbound, for strings that together are shorter than 2 ^ 63, a 64-bit
-- offset and clock and a 32-bit size: ParseHelperMessage reads the type and the sub-message, and
-- ParseFileChunkRequest the four arguments.
pub parse-encode_file_chunk_request :
    (t f : Bytes) (o n clock : ℕ)
    → length t + length f < 2 ^ 63
    → o < 2 ^ 64
    → n < 2 ^ 32
    → clock < 2 ^ 64
    → (parse_helper_message (encode_file_chunk_request_outbound t f o n clock)
        ≡ parsed (record no_message {
          type = MessageType.file_chunk_request;
          file_chunk_request = some (file_chunk_request_inner t f o n);
        }))
      × (parse_file_chunk_request (file_chunk_request_inner t f o n)
          ≡ parsed (record { transfer_id = t; file_id = f; offset = o; size = n }))
parse-encode_file_chunk_request t f o n clock hl ho hn hc =
    let inner = file_chunk_request_inner t f o n in
    let same : n % 2 ^ 32 ≡ n = omega arith in
    (
      rw
          (
            request-fields t f o n clock,
            parse-envelope 15 8 inner clock (omega arith) (omega arith) (omega arith)
                (omega (arith, length-request_inner t f o n)) hc,
          )
          (ground arith),
      rw (
        (parse_chunks-entries (file_chunk_request_inner t f o n)).0,
        request_inner-fields t f o n,
        entries-write_entries (request_fields t f o n)
            (request_fields-IsWritable t f o n (omega arith) (omega arith) ho (omega arith)),
        fold-request t f o n,
        same,
      ),
    )
