-- ===== src/Windows/Codec/Metadata.antt =====
-- windows/src/dispatch_codec.cpp: EncodeFileMetadata and EncodeVirtualFileMetadata against
-- ParseFileMetadataForVirtualFile.
use clipboard_helper.Prelude.{
  ℕ, zero, suc, ◌+◌, ◌/◌, ◌%◌, ◌^◌, ◌≤◌, ◌<◌, ◌≡◌, refl, Option, List, [], ◌∷◌, ◌++◌, arith, false,
  ltb, not, if◌then◌else◌, if-cases, Bytes, All, All-append, length, length-append, is_empty,
}
use mathlib.Core.List.{foldl, foldl-append}
use clipboard_helper.Prelude.Parse.{parsed}
use clipboard_helper.Wire.Entries.{Entry}
use clipboard_helper.Wire.Written.{write_entries, IsWritable, entries-write_entries}
use clipboard_helper.Wire.Fields.{
  int_entries, chunk_entries, int_entries-IsWritable, chunk_entries-IsWritable, fold_chunk,
  fold_int,
}
use clipboard_helper.Windows.Codec.Files.{
  Wide, to_string_loop, to_string, basename, VirtualFileEntry, file_size, encode_file_metadata,
  encode_virtual_file_metadata, no_file_metadata, to_virtual_file,
  parse_file_metadata_for_virtual_file,
}
use clipboard_helper.Windows.Codec.Refines.{update_file_metadata, parse_file_metadata-entries}
use clipboard_helper.Windows.Codec.RoundTrip.{inner_writers}

metadata_fields : Bytes → Bytes → Bytes → ℕ → List Entry
metadata_fields id name path size =
    chunk_entries 1 id ++ (chunk_entries 2 name ++ (chunk_entries 3 path ++ int_entries 4 size))

metadata_fields-IsWritable :
    (id name path : Bytes) (size : ℕ)
    → length id < 2 ^ 64
    → length name < 2 ^ 64
    → length path < 2 ^ 64
    → size < 2 ^ 64
    → All IsWritable (metadata_fields id name path size)
unfolding metadata_fields
metadata_fields-IsWritable id name path size hi hn hp hs =
    All-append IsWritable (chunk_entries 1 id) _ (chunk_entries-IsWritable 1 id (omega arith) hi) (
      All-append IsWritable (chunk_entries 2 name) _
        (chunk_entries-IsWritable 2 name (omega arith) hn)
        (All-append IsWritable (chunk_entries 3 path) _
          (chunk_entries-IsWritable 3 path (omega arith) hp)
          (int_entries-IsWritable 4 size (omega arith) hs)))

fold-metadata :
    (id name path : Bytes) (size : ℕ)
    → foldl update_file_metadata no_file_metadata (metadata_fields id name path size) ≡ record {
      file_id = id;
      filename = name;
      relative_path = path;
      file_size = size;
      is_directory = false;
    }
unfolding metadata_fields
fold-metadata id name path size =
    let named = record no_file_metadata { file_id = id } in
    let shown = record named { filename = name } in
    let placed = record shown { relative_path = path } in
    rw (
      foldl-append update_file_metadata no_file_metadata (chunk_entries 1 id)
          (chunk_entries 2 name ++ (chunk_entries 3 path ++ int_entries 4 size)),
      fold_chunk update_file_metadata 1 no_file_metadata id refl,
      foldl-append update_file_metadata named (chunk_entries 2 name)
          (chunk_entries 3 path ++ int_entries 4 size),
      fold_chunk update_file_metadata 2 named name refl,
      foldl-append update_file_metadata shown (chunk_entries 3 path) (int_entries 4 size),
      fold_chunk update_file_metadata 3 shown path refl,
      fold_int update_file_metadata 4 placed size refl,
    )

to_string_loop-length :
    (fuel n : ℕ)
    → (is_empty (to_string_loop fuel n) ≡ false) × (length (to_string_loop fuel n) ≤ suc fuel)
unfolding to_string_loop
to_string_loop-length zero n = (refl, omega arith)
to_string_loop-length (suc fuel) n =
    let rest = to_string_loop-length fuel (n / 10) in
    let added = length-append (to_string_loop fuel (n / 10)) ((0x30 + n % 10) ∷ []) in
    if-cases (λ (s : Bytes). (is_empty s ≡ false) × (length s ≤ suc (suc fuel))) (ltb n 10)
      (λ e. (refl, omega arith))
      (λ e. (filled (to_string_loop fuel (n / 10)) (0x30 + n % 10), omega arith))
  where
    filled : (s : Bytes) (c : ℕ) → is_empty (s ++ c ∷ []) ≡ false
    filled [] c = refl
    filled (x ∷ s) c = refl

module _ (utf8_to_wide : Bytes → Wide) where
  parse-metadata_fields :
      (id name path : Bytes) (size : ℕ)
      → length id < 2 ^ 64
      → length name < 2 ^ 64
      → length path < 2 ^ 64
      → size < 2 ^ 64
      → is_empty id ≡ false
      → is_empty (if not (is_empty path) then path else name) ≡ false
      → parse_file_metadata_for_virtual_file utf8_to_wide
          (write_entries (metadata_fields id name path size))
        ≡ parsed (record {
          name = utf8_to_wide (if not (is_empty path) then path else name);
          size = size;
          file_id = id;
          is_directory = false;
        })
  unfolding parse_file_metadata_for_virtual_file to_virtual_file
  parse-metadata_fields id name path size hi hn hp hs named shown =
      rw
        (
          parse_file_metadata-entries (write_entries (metadata_fields id name path size)),
          entries-write_entries (metadata_fields id name path size)
              (metadata_fields-IsWritable id name path size hi hn hp hs),
          fold-metadata id name path size,
          named,
          shown,
        )
        refl

module _ (wide_to_utf8 : Wide → Bytes) (get_file_attributes : Wide → Option (ℕ × ℕ)) where
  encode_file_metadata-fields :
      (i : ℕ) (path : Wide)
      → encode_file_metadata wide_to_utf8 get_file_attributes i path
        ≡ write_entries (
            metadata_fields
              (to_string i)
              (wide_to_utf8 (basename path))
              (wide_to_utf8 path)
              (file_size wide_to_utf8 get_file_attributes path))
  unfolding encode_file_metadata metadata_fields
  encode_file_metadata-fields i path = simp inner_writers

  encode_virtual_file_metadata-fields :
      (i : ℕ) (entry : VirtualFileEntry)
      → encode_virtual_file_metadata wide_to_utf8 i entry
        ≡ write_entries (metadata_fields (to_string i) (wide_to_utf8 entry.name) [] entry.size)
  unfolding encode_virtual_file_metadata metadata_fields
  encode_virtual_file_metadata-fields i entry = simp inner_writers

-- The metadata of a physical file and of a virtual one, with names that are not empty in UTF-8 and
-- shorter than 2 ^ 64 bytes and a 64-bit size: ParseFileMetadataForVirtualFile reads a file, no
-- directory, with the decimal index as its identifier, the size, and the whole path (of a virtual file
-- the name) as its name, through both conversions.
pub parse-encode_metadata :
    (utf8_to_wide : Bytes → Wide) (wide_to_utf8 : Wide → Bytes)
    (get_file_attributes : Wide → Option (ℕ × ℕ)) (i : ℕ) (path : Wide) (entry : VirtualFileEntry)
    → length (wide_to_utf8 (basename path)) < 2 ^ 64
    → length (wide_to_utf8 path) < 2 ^ 64
    → length (wide_to_utf8 entry.name) < 2 ^ 64
    → file_size wide_to_utf8 get_file_attributes path < 2 ^ 64
    → entry.size < 2 ^ 64
    → is_empty (wide_to_utf8 path) ≡ false
    → is_empty (wide_to_utf8 entry.name) ≡ false
    → (parse_file_metadata_for_virtual_file utf8_to_wide
          (encode_file_metadata wide_to_utf8 get_file_attributes i path)
        ≡ parsed (record {
          name = utf8_to_wide (wide_to_utf8 path);
          size = file_size wide_to_utf8 get_file_attributes path;
          file_id = to_string i;
          is_directory = false;
        }))
      × (parse_file_metadata_for_virtual_file utf8_to_wide
            (encode_virtual_file_metadata wide_to_utf8 i entry)
          ≡ parsed (record {
            name = utf8_to_wide (wide_to_utf8 entry.name);
            size = entry.size;
            file_id = to_string i;
            is_directory = false;
          }))
unfolding to_string
parse-encode_metadata utf8_to_wide wide_to_utf8 get_file_attributes i path entry hb hp hn hs hv full
      full' =
    let (named, short) = to_string_loop-length 9 i in
    let id = to_string i in
    let base = wide_to_utf8 (basename path) in
    let whole = wide_to_utf8 path in
    let size = file_size wide_to_utf8 get_file_attributes path in
    (
      rw (encode_file_metadata-fields wide_to_utf8 get_file_attributes i path) (
          rw
            (
              parse-metadata_fields utf8_to_wide id base whole size (omega arith) hb hp hs named
                  (rw full full),
              full,
            )
            refl),
      rw (encode_virtual_file_metadata-fields wide_to_utf8 get_file_attributes i entry) (
          parse-metadata_fields utf8_to_wide id (wide_to_utf8 entry.name) [] entry.size
            (omega arith) hn (omega arith) hv named full'),
    )
