-- ===== src/Proto/Field/Message.antt =====
-- The `kField...` constants of helper_proto.h.
use clipboard_helper.Prelude.{ℕ}

abbrev pub type : ℕ
type = 1

abbrev pub clipboard_data : ℕ
clipboard_data = 2

abbrev pub announcement : ℕ
announcement = 3

abbrev pub provide_data : ℕ
provide_data = 4

abbrev pub data_request : ℕ
data_request = 5

abbrev pub error_message : ℕ
error_message = 6

abbrev pub timestamp : ℕ
timestamp = 7

abbrev pub file_chunk_request : ℕ
file_chunk_request = 8

abbrev pub file_chunk_data : ℕ
file_chunk_data = 9

abbrev pub file_transfer_progress : ℕ
file_transfer_progress = 10
