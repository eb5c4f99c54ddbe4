-- ===== src/Proto/Field/FileMetadata.antt =====
-- The `kFMField...` constants of helper_proto.h (dispatch_codec.h on Windows).
use clipboard_helper.Prelude.{ℕ}

abbrev pub file_id : ℕ
file_id = 1

abbrev pub filename : ℕ
filename = 2

abbrev pub relative_path : ℕ
relative_path = 3

abbrev pub file_size : ℕ
file_size = 4

abbrev pub mime_type : ℕ
mime_type = 5

abbrev pub checksum : ℕ
checksum = 6

abbrev pub is_directory : ℕ
is_directory = 7
