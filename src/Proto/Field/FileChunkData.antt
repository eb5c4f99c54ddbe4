-- ===== src/Proto/Field/FileChunkData.antt =====
-- The `kFCDataField...` constants of helper_proto.h.
use clipboard_helper.Prelude.{ℕ}

abbrev pub transfer_id : ℕ
transfer_id = 1

abbrev pub file_id : ℕ
file_id = 2

abbrev pub offset : ℕ
offset = 3

abbrev pub content : ℕ
content = 4

abbrev pub is_last : ℕ
is_last = 5

abbrev pub error : ℕ
error = 6
