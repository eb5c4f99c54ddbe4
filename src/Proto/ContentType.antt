-- ===== src/Proto/ContentType.antt =====
-- `enum class ClipboardContentType` of helper_proto.h.
use clipboard_helper.Prelude.{ℕ}

abbrev pub unspecified : ℕ
unspecified = 0

abbrev pub text : ℕ
text = 1

abbrev pub image : ℕ
image = 2

abbrev pub files : ℕ
files = 3
