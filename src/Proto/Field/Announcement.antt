-- ===== src/Proto/Field/Announcement.antt =====
-- The `kAnnField...` constants of helper_proto.h.
use clipboard_helper.Prelude.{ℕ}

abbrev pub content_type : ℕ
content_type = 1

abbrev pub content_hash : ℕ
content_hash = 2

abbrev pub files : ℕ
files = 6

abbrev pub transfer_id : ℕ
transfer_id = 7
