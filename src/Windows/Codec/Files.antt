-- ===== src/Windows/Codec/Files.antt =====
-- windows/src/dispatch_codec.cpp: FileMetadata. A wide string is its code units; Utf8ToWide and
-- WideToUtf8 are the Win32 conversions, and GetFileAttributesExW gives the low and the high word of
-- a file's size: all three are parameters.
use clipboard_helper.Prelude.{
  ℕ, zero, suc, ◌+◌, ◌*◌, ◌/◌, ◌%◌, ◌^◌, Option, none, some, Bool, false, not, ◌&&◌, ◌||◌, List, [],
  ◌∷◌, ◌++◌, ltb, ◌==◌, if◌then◌else◌, Bytes, is_empty, length,
}
use clipboard_helper.Prelude.Parse.{Parse, parsed, malformed, stuck, ◌>>=◌}
use clipboard_helper.Proto.Field
use clipboard_helper.Wire.{
  varint, length_delim, write_uint64_field, write_string_field, read_tag, read_varint,
  read_length_delim, skip_field, parse_fields,
}

abbrev pub Wide : Type 0
Wide = List ℕ

-- `std::to_string` of an `std::uint32_t`, which has ten digits at most: the fuel is one less.
unfoldable pub to_string_loop : ℕ → ℕ → Bytes
to_string_loop zero n = (0x30 + n % 10) ∷ []
to_string_loop (suc fuel) n =
    let rest = to_string_loop fuel (n / 10) in
    if ltb n 10 then (0x30 + n) ∷ [] else rest ++ (0x30 + n % 10) ∷ []

unfoldable pub to_string : ℕ → Bytes
unfolding to_string_loop
to_string n = to_string_loop 9 n

-- What follows the last backslash or slash.
unfoldable pub after_last_separator : Wide → Option Wide
after_last_separator [] = none
after_last_separator (c ∷ s) = elim (after_last_separator s) [
  | some t ↦ some t
  | none ↦ if c == b'\\' || c == b'/' then some s else none
]

unfoldable pub basename : Wide → Wide
unfolding after_last_separator
basename full_path = elim (after_last_separator full_path) [ some s ↦ s | none ↦ full_path ]

pub record VirtualFileEntry : Type 0 where
  pub name : Wide
  pub size : ℕ

module _ (wide_to_utf8 : Wide → Bytes) (get_file_attributes : Wide → Option (ℕ × ℕ)) where
  unfoldable pub file_size : Wide → ℕ
  file_size full_path = elim (get_file_attributes full_path) [
    | none ↦ 0
    | some (low, high) ↦ high * 2 ^ 32 + low
  ]

  unfoldable pub encode_file_metadata : ℕ → Wide → Bytes
  encode_file_metadata index full_path =
      write_string_field Field.FileMetadata.file_id (to_string index)
      ++ (write_string_field Field.FileMetadata.filename (wide_to_utf8 (basename full_path))
          ++ (write_string_field Field.FileMetadata.relative_path (wide_to_utf8 full_path)
              ++ write_uint64_field Field.FileMetadata.file_size (file_size full_path)))

module _ (wide_to_utf8 : Wide → Bytes) where
  unfoldable pub encode_virtual_file_metadata : ℕ → VirtualFileEntry → Bytes
  encode_virtual_file_metadata index entry =
      write_string_field Field.FileMetadata.file_id (to_string index)
      ++ (write_string_field Field.FileMetadata.filename (wide_to_utf8 entry.name)
          ++ write_uint64_field Field.FileMetadata.file_size entry.size)

-- The locals of ParseFileMetadataForVirtualFile.
pub record FileMetadata : Type 0 where
  pub file_id : Bytes
  pub filename : Bytes
  pub relative_path : Bytes
  pub file_size : ℕ
  pub is_directory : Bool

abbrev pub no_file_metadata : FileMetadata
no_file_metadata = record {
  file_id = [];
  filename = [];
  relative_path = [];
  file_size = 0;
  is_directory = false;
}

unfoldable pub file_metadata_step : ℕ → ℕ → FileMetadata → Bytes → Parse (FileMetadata × Bytes)
file_metadata_step field wire out r =
    if field == Field.FileMetadata.file_id && wire == length_delim
    then (do (s, r') ← read_length_delim r; parsed (record out { file_id = s }, r'))
    else if field == Field.FileMetadata.filename && wire == length_delim
    then (do (s, r') ← read_length_delim r; parsed (record out { filename = s }, r'))
    else if field == Field.FileMetadata.relative_path && wire == length_delim
    then (do (s, r') ← read_length_delim r; parsed (record out { relative_path = s }, r'))
    else if field == Field.FileMetadata.file_size && wire == varint
    then (do (v, r') ← read_varint r; parsed (record out { file_size = v }, r'))
    else if field == Field.FileMetadata.is_directory && wire == varint
    then (do (v, r') ← read_varint r; parsed (record out { is_directory = not (v == 0) }, r'))
    else do r' ← skip_field wire r; parsed (out, r')

pub record VirtualFileSpec : Type 0 where
  pub name : Wide
  pub size : ℕ
  pub file_id : Bytes
  pub is_directory : Bool

module _ (utf8_to_wide : Bytes → Wide) where
  -- What follows the loop.
  unfoldable pub to_virtual_file : FileMetadata → Parse VirtualFileSpec
  to_virtual_file out =
      let display = if not (is_empty out.relative_path) then out.relative_path else out.filename in
      if is_empty out.file_id
      then malformed
      else if is_empty display
      then malformed
      else parsed (record {
        name = utf8_to_wide display;
        size = out.file_size;
        file_id = out.file_id;
        is_directory = out.is_directory;
      })

  unfoldable pub parse_file_metadata_for_virtual_file : Bytes → Parse VirtualFileSpec
  parse_file_metadata_for_virtual_file input =
      parse_fields file_metadata_step no_file_metadata input >>= to_virtual_file

-- The loop of ExtractRelativePath, which returns from its middle. The fuel is the rounds left.
unfoldable pub extract_loop : ℕ → Bytes → Parse Bytes
extract_loop fuel [] = malformed
extract_loop zero (b ∷ r) = stuck
extract_loop (suc fuel) (b ∷ r) = do
  (field, wire, r') ← read_tag (b ∷ r)
  if field == Field.FileMetadata.relative_path && wire == length_delim
      then (do (s, _) ← read_length_delim r'; parsed s)
      else do r'' ← skip_field wire r'; extract_loop fuel r''

unfoldable pub extract_relative_path : Bytes → Parse Bytes
unfolding extract_loop
extract_relative_path input = extract_loop (length input) input
