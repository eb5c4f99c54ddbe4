-- ===== src/Linux/Echo.antt =====
-- linux/src/echo_suppressor.cpp: which clipboard changes are the helper's own. A QMimeData object is
-- its address, a number that is not 0; a null pointer is `none`. The QPointer becomes null when Qt
-- destroys the object: `mime_destroyed` is that step of the environment.
use clipboard_helper.Prelude.{
  ℕ, ◌≡◌, refl, Option, none, some, Bool, true, false, arith, ◌==◌, if◌then◌else◌, Bytes, bytes_eq,
  bytes_eq_refl,
}

pub record EchoSuppressor : Type 0 where
  pub last_set_text : Option Bytes
  pub announced_mime : Option ℕ

unfoldable pub record_eager_set_text : Bytes → EchoSuppressor → EchoSuppressor
record_eager_set_text utf8 echo = record echo { last_set_text = some utf8 }

unfoldable pub record_announced_mime : Option ℕ → EchoSuppressor → EchoSuppressor
record_announced_mime mime echo = record echo { announced_mime = mime }

unfoldable pub mime_destroyed : ℕ → EchoSuppressor → EchoSuppressor
mime_destroyed mime echo = elim echo.announced_mime [
  | none ↦ echo
  | some m ↦ if m == mime then record echo { announced_mime = none } else echo
]

unfoldable pub is_announced_mime : EchoSuppressor → Option ℕ → Bool
is_announced_mime echo current_mime = elim echo.announced_mime [
  | none ↦ false
  | some m ↦ elim current_mime [ none ↦ false | some c ↦ m == c ]
]

unfoldable pub consume_eager_set_text_echo : Bytes → EchoSuppressor → EchoSuppressor × Bool
consume_eager_set_text_echo current_text echo = elim echo.last_set_text [
  | none ↦ (echo, false)
  | some t ↦
      if bytes_eq t current_text
      then (record echo { last_set_text = none }, true)
      else (echo, false)
]

-- One change with the text that was set is taken for an echo, and no later change is, whatever its
-- text, until another text is set.
pub eager_echo_once :
    (utf8 later : Bytes) (echo : EchoSuppressor)
    → ((consume_eager_set_text_echo utf8 (record_eager_set_text utf8 echo)).1 ≡ true)
      × ((consume_eager_set_text_echo later
            (consume_eager_set_text_echo utf8 (record_eager_set_text utf8 echo)).0).1
          ≡ false)
unfolding consume_eager_set_text_echo record_eager_set_text
eager_echo_once utf8 later echo = let same = bytes_eq_refl utf8 in rw same (refl, refl)

-- A change with another text passes, and the expectation stays.
pub foreign_text_passes :
    (utf8 other : Bytes) (echo : EchoSuppressor)
    → bytes_eq utf8 other ≡ false
    → consume_eager_set_text_echo other (record_eager_set_text utf8 echo)
      ≡ (record_eager_set_text utf8 echo, false)
unfolding consume_eager_set_text_echo record_eager_set_text
foreign_text_passes utf8 other echo h = rw h

-- An announced object is the helper's own until it is destroyed, and none is its own then.
pub announced_until_destroyed :
    (mime : ℕ) (current : Option ℕ) (echo : EchoSuppressor)
    → (is_announced_mime (record_announced_mime (some mime) echo) (some mime) ≡ true)
      × (is_announced_mime (mime_destroyed mime (record_announced_mime (some mime) echo)) current
          ≡ false)
unfolding is_announced_mime record_announced_mime mime_destroyed
announced_until_destroyed mime current echo =
    let same : (mime == mime) ≡ true = ground arith in rw same (refl, refl)
