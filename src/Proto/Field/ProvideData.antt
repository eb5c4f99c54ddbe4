-- ===== src/Proto/Field/ProvideData.antt =====
-- The `kPDField...` constants of helper_proto.h.
use clipboard_helper.Prelude.{ℕ}

abbrev pub content_hash : ℕ
content_hash = 1

abbrev pub content : ℕ
content = 2
