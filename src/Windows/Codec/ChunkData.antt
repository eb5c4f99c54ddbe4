-- ===== src/Windows/Codec/ChunkData.antt =====
-- windows/src/dispatch_codec.cpp: EncodeFileChunkData against its parsers.
use clipboard_helper.Prelude.{
  ℕ, ◌+◌, ◌^◌, ◌≤◌, ◌<◌, ◌≡◌, refl, some, Bool, true, false, List, ◌++◌, arith, if◌then◌else◌,
  Bytes, All, All-append, length,
}
use mathlib.Core.List.{foldl, foldl-append}
use clipboard_helper.Prelude.Parse.{parsed}
use clipboard_helper.Proto.MessageType
use clipboard_helper.Wire.{write_tag}
use clipboard_helper.Wire.Entries.{Entry}
use clipboard_helper.Wire.Written.{write_entries, IsWritable, entries-write_entries}
use clipboard_helper.Wire.Fields.{
  int_entries, chunk_entries, guarded-write_string_field, write_enum_field_small,
  int_entries-IsWritable, chunk_entries-IsWritable, length-chunk_entries, length-int_entries,
  length-two_parts, fold_chunk, fold_int,
}
use clipboard_helper.Linux.Codec.Encoded.{envelope_fields}
use clipboard_helper.Windows.Codec.{no_message, parse_helper_message}
use clipboard_helper.Windows.Codec.RoundTrip.{inner_writers, parse-envelope}
use clipboard_helper.Windows.Codec.Chunks.{
  ParsedFileChunkData, no_file_chunk_data, file_chunk_data_inner, encode_file_chunk_data,
  parse_file_chunk_data,
}
use clipboard_helper.Windows.Codec.Refines.{update_file_chunk_data, parse_chunks-entries}

data_fields : Bytes → Bytes → ℕ → Bytes → Bool → Bytes → List Entry
data_fields t f o c l e =
    chunk_entries 1 t
    ++ (chunk_entries 2 f
        ++ (int_entries 3 o
            ++ (chunk_entries 4 c ++ (int_entries 5 (if l then 1 else 0) ++ chunk_entries 6 e))))

data_inner-fields :
    (t f : Bytes) (o : ℕ) (c : Bytes) (l : Bool) (e : Bytes)
    → file_chunk_data_inner t f o c l e ≡ write_entries (data_fields t f o c l e)
unfolding file_chunk_data_inner data_fields
data_inner-fields t f o c l e = rw (guarded-write_string_field 6 e) (simp inner_writers)

data-fields :
    (t f : Bytes) (o : ℕ) (c : Bytes) (l : Bool) (e : Bytes) (clock : ℕ)
    → encode_file_chunk_data t f o c l e clock
      ≡ write_entries (envelope_fields 16 9 (file_chunk_data_inner t f o c l e) clock)
unfolding encode_file_chunk_data write_tag
data-fields t f o c l e clock = simp (inner_writers, write_enum_field_small 1 16 (omega arith))

length-data_inner :
    (t f : Bytes) (o : ℕ) (c : Bytes) (l : Bool) (e : Bytes)
    → length (file_chunk_data_inner t f o c l e)
      ≤ length t + 20 + (length f + 20 + (20 + (length c + 20 + (20 + (length e + 20)))))
unfolding data_fields
length-data_inner t f o c l e = rw (data_inner-fields t f o c l e) (
    length-two_parts (chunk_entries 1 t) _ _ _ (length-chunk_entries 1 t) (
      length-two_parts (chunk_entries 2 f) _ _ _ (length-chunk_entries 2 f) (
        length-two_parts (int_entries 3 o) _ _ _ (length-int_entries 3 o) (
          length-two_parts (chunk_entries 4 c) _ _ _ (length-chunk_entries 4 c) (
            length-two_parts (int_entries 5 (if l then 1 else 0)) _ _ _
              (length-int_entries 5 (if l then 1 else 0)) (length-chunk_entries 6 e))))))

flag-lt : (l : Bool) → (if l then 1 else 0) < 2 ^ 64
flag-lt true = omega arith
flag-lt false = omega arith

data_fields-IsWritable :
    (t f : Bytes) (o : ℕ) (c : Bytes) (l : Bool) (e : Bytes)
    → length t + length f + length c + length e < 2 ^ 63
    → o < 2 ^ 64
    → All IsWritable (data_fields t f o c l e)
unfolding data_fields
data_fields-IsWritable t f o c l e h ho =
    All-append IsWritable (chunk_entries 1 t) _
      (chunk_entries-IsWritable 1 t (omega arith) (omega arith))
      (All-append IsWritable (chunk_entries 2 f) _
        (chunk_entries-IsWritable 2 f (omega arith) (omega arith))
        (All-append IsWritable (int_entries 3 o) _ (int_entries-IsWritable 3 o (omega arith) ho) (
          All-append IsWritable (chunk_entries 4 c) _
            (chunk_entries-IsWritable 4 c (omega arith) (omega arith))
            (All-append IsWritable (int_entries 5 (if l then 1 else 0)) _
              (int_entries-IsWritable 5 (if l then 1 else 0) (omega arith) (flag-lt l))
              (chunk_entries-IsWritable 6 e (omega arith) (omega arith))))))

module _ (t f : Bytes) (o : ℕ) (c : Bytes) where
  ids : ParsedFileChunkData
  ids = record no_file_chunk_data { transfer_id = t; file_id = f }

  whole : ParsedFileChunkData
  whole = record no_file_chunk_data { transfer_id = t; file_id = f; offset = o; content = c }

  fold-flag :
      (l : Bool)
      → foldl update_file_chunk_data whole (int_entries 5 (if l then 1 else 0))
        ≡ record whole { is_last = l }
  unfolding whole
  fold-flag true = refl
  fold-flag false = refl

  fold-data :
      (l : Bool) (e : Bytes)
      → foldl update_file_chunk_data no_file_chunk_data (data_fields t f o c l e)
        ≡ record { transfer_id = t; file_id = f; offset = o; content = c; is_last = l; error = e }
  unfolding data_fields whole ids
  fold-data l e = rw (
    foldl-append update_file_chunk_data no_file_chunk_data (chunk_entries 1 t) (
        chunk_entries 2 f
        ++ (int_entries 3 o
            ++ (chunk_entries 4 c ++ (int_entries 5 (if l then 1 else 0) ++ chunk_entries 6 e)))),
    fold_chunk update_file_chunk_data 1 no_file_chunk_data t refl,
    foldl-append update_file_chunk_data (record no_file_chunk_data { transfer_id = t })
        (chunk_entries 2 f)
        (int_entries 3 o
          ++ (chunk_entries 4 c ++ (int_entries 5 (if l then 1 else 0) ++ chunk_entries 6 e))),
    fold_chunk update_file_chunk_data 2 (record no_file_chunk_data { transfer_id = t }) f refl,
    foldl-append update_file_chunk_data ids (int_entries 3 o)
        (chunk_entries 4 c ++ (int_entries 5 (if l then 1 else 0) ++ chunk_entries 6 e)),
    fold_int update_file_chunk_data 3 ids o refl,
    foldl-append update_file_chunk_data (record ids { offset = o }) (chunk_entries 4 c)
        (int_entries 5 (if l then 1 else 0) ++ chunk_entries 6 e),
    fold_chunk update_file_chunk_data 4 (record ids { offset = o }) c refl,
    foldl-append update_file_chunk_data whole (int_entries 5 (if l then 1 else 0))
        (chunk_entries 6 e),
    fold-flag l,
    fold_chunk update_file_chunk_data 6 (record whole { is_last = l }) e refl,
  )

-- EncodeFileChunkData, for strings and a payload that together are shorter than 2 ^ 63 and a 64-bit
-- offset and clock: ParseHelperMessage reads the type and the sub-message, and ParseFileChunkData
-- the six arguments.
pub parse-encode_file_chunk_data :
    (t f : Bytes) (o : ℕ) (c : Bytes) (l : Bool) (e : Bytes) (clock : ℕ)
    → length t + length f + length c + length e < 2 ^ 63
    → o < 2 ^ 64
    → clock < 2 ^ 64
    → (parse_helper_message (encode_file_chunk_data t f o c l e clock)
        ≡ parsed (record no_message {
          type = MessageType.file_chunk_data;
          file_chunk_data = some (file_chunk_data_inner t f o c l e);
        }))
      × (parse_file_chunk_data (file_chunk_data_inner t f o c l e)
          ≡ parsed (record {
            transfer_id = t;
            file_id = f;
            offset = o;
            content = c;
            is_last = l;
            error = e;
          }))
parse-encode_file_chunk_data t f o c l e clock hl ho hc =
    let inner = file_chunk_data_inner t f o c l e in
    (
      rw
          (
            data-fields t f o c l e clock,
            parse-envelope 16 9 inner clock (omega arith) (omega arith) (omega arith)
                (omega (arith, length-data_inner t f o c l e)) hc,
          )
          (ground arith),
      rw (
        (parse_chunks-entries (file_chunk_data_inner t f o c l e)).1,
        data_inner-fields t f o c l e,
        entries-write_entries (data_fields t f o c l e) (data_fields-IsWritable t f o c l e hl ho),
        fold-data t f o c l e,
      ),
    )
