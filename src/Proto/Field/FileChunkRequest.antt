-- ===== src/Proto/Field/FileChunkRequest.antt =====
-- The `kFCReqField...` constants of helper_proto.h.
use clipboard_helper.Prelude.{ℕ}

abbrev pub transfer_id : ℕ
transfer_id = 1

abbrev pub file_id : ℕ
file_id = 2

abbrev pub offset : ℕ
offset = 3

abbrev pub size : ℕ
size = 4
