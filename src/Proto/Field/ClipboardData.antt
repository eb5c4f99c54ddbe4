-- ===== src/Proto/Field/ClipboardData.antt =====
-- The `kCDField...` constants of helper_proto.h.
use clipboard_helper.Prelude.{ℕ}

abbrev pub content_type : ℕ
content_type = 1

abbrev pub payload : ℕ
payload = 2

abbrev pub content_hash : ℕ
content_hash = 3

abbrev pub files : ℕ
files = 4

abbrev pub transfer_id : ℕ
transfer_id = 5
