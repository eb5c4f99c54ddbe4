-- ===== src/Proto/Field/DataRequest.antt =====
-- The `kReqField...` constants of helper_proto.h.
use clipboard_helper.Prelude.{ℕ}

abbrev pub content_hash : ℕ
content_hash = 1

abbrev pub content_type : ℕ
content_type = 2
