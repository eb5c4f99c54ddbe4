-- ===== src/Proto/MessageType.antt =====
-- `enum class HelperMessageType` of helper_proto.h.
use clipboard_helper.Prelude.{ℕ}

abbrev pub unspecified : ℕ
unspecified = 0

abbrev pub set_clipboard : ℕ
set_clipboard = 1

abbrev pub announce_delayed : ℕ
announce_delayed = 2

abbrev pub provide_data : ℕ
provide_data = 3

abbrev pub get_clipboard : ℕ
get_clipboard = 4

abbrev pub shutdown : ℕ
shutdown = 5

abbrev pub clipboard_changed : ℕ
clipboard_changed = 10

abbrev pub data_request : ℕ
data_request = 11

abbrev pub clipboard_content : ℕ
clipboard_content = 12

abbrev pub error : ℕ
error = 13

abbrev pub ready : ℕ
ready = 14

abbrev pub file_chunk_request : ℕ
file_chunk_request = 15

abbrev pub file_chunk_data : ℕ
file_chunk_data = 16

abbrev pub file_transfer_progress : ℕ
file_transfer_progress = 17
