-- ===== src/Linux/UriList.antt =====
-- linux/src/uri_list_format.cpp: from newline-separated local paths to the clipboard formats of
-- file managers. A string is its bytes.
pub mod Encoding
pub mod Lines
use clipboard_helper.Prelude.{
  ℕ, ◌+◌, ◌/◌, ◌%◌, Bool, ◌&&◌, ◌||◌, List, [], ◌∷◌, ◌++◌, leb, ltb, ◌==◌, if◌then◌else◌, Bytes,
  is_empty, bytes_eq, text,
}

unfoldable pub is_uri_path_safe : ℕ → Bool
is_uri_path_safe c =
    (leb b'A' c && leb c b'Z')
    || ((leb b'a' c && leb c b'z')
        || ((leb b'0' c && leb c b'9')
            || (c == b'-' || (c == b'_' || (c == b'.' || (c == b'~' || c == b'/'))))))

-- A digit of the conversion `%02X` of snprintf.
unfoldable pub hex_digit : ℕ → ℕ
hex_digit n = if ltb n 10 then b'0' + n else 55 + n

unfoldable pub percent_encode_path : Bytes → Bytes
unfolding is_uri_path_safe hex_digit
percent_encode_path [] = []
percent_encode_path (c ∷ path) =
    let rest = percent_encode_path path in
    if is_uri_path_safe c then c ∷ rest else b'%' ∷ hex_digit (c / 16) ∷ hex_digit (c % 16) ∷ rest

-- One more byte at the front of the first line.
abbrev pub prepend : ℕ → List Bytes → List Bytes
prepend c [] = (c ∷ []) ∷ []
prepend c (line ∷ rest) = (c ∷ line) ∷ rest

-- The substrings between the newlines that `find` meets; behind the last newline stands one more,
-- which may be empty.
unfoldable pub lines : Bytes → List Bytes
lines [] = [] ∷ []
lines (c ∷ s) = let rest = lines s in if c == 0x0a then [] ∷ rest else prepend c rest

-- `if (!line.empty() && line.back() == '\r') line.remove_suffix(1);`
unfoldable pub strip_cr : Bytes → Bytes
strip_cr [] = []
strip_cr (c ∷ []) = if c == 0x0d then [] else c ∷ []
strip_cr (c ∷ d ∷ s) = c ∷ strip_cr (d ∷ s)

-- The body of the loop of SplitPaths, line by line.
unfoldable pub push_lines : List Bytes → List Bytes
push_lines [] = []
push_lines (line ∷ ls) =
    let rest = push_lines ls in if is_empty (strip_cr line) then rest else strip_cr line ∷ rest

unfoldable pub split_paths : Bytes → List Bytes
split_paths path_bytes = push_lines (lines path_bytes)

unfoldable pub make_file_uri : Bytes → Bytes
make_file_uri path = text "file://" ++ percent_encode_path path

unfoldable pub format_text_uri_list : List Bytes → Bytes
format_text_uri_list [] = []
format_text_uri_list (p ∷ paths) = make_file_uri p ++ (0x0d ∷ 0x0a ∷ format_text_uri_list paths)

-- The loop of FormatGnomeCopiedFiles, which appends behind "copy".
unfoldable pub gnome_uris : List Bytes → Bytes
gnome_uris [] = []
gnome_uris (p ∷ paths) = 0x0a ∷ make_file_uri p ++ gnome_uris paths

unfoldable pub format_gnome_copied_files : List Bytes → Bytes
format_gnome_copied_files paths = text "copy" ++ gnome_uris paths

unfoldable pub format_for_mime : Bytes → Bytes → Bytes
format_for_mime path_bytes mime =
    let paths = split_paths path_bytes in
    if bytes_eq mime (text "x-special/gnome-copied-files")
    then format_gnome_copied_files paths
    else format_text_uri_list paths
