-- ===== src/Prelude/Text.antt =====
-- String literals of the source, as bytes. They are ASCII, so a code point is a byte.
use Prim.Native.Char.{code}
use Prim.Native.String.{String}
use mathlib.Core.List.{[], ◌∷◌}
use clipboard_helper.Prelude.Lists.{Bytes}

abbrev pub text : String → Bytes
text String.[] = []
text (String.◌∷◌ c s) = code c ∷ text s
