-- ===== src/Tests/Session.antt =====
-- Witnesses for the echo suppressor and the watchdog.
use clipboard_helper.Prelude.{◌≡◌, refl, none, false, [], ◌∷◌, Bytes}
use clipboard_helper.Linux.Echo.{
  EchoSuppressor, record_eager_set_text, consume_eager_set_text_echo, foreign_text_passes,
}

abbrev hi : Bytes
hi = b'h' ∷ b'i' ∷ []

abbrev nothing_set : EchoSuppressor
nothing_set = record { last_set_text = none; announced_mime = none }

foreign_text_passes_example :
    consume_eager_set_text_echo [] (record_eager_set_text hi nothing_set)
    ≡ (record_eager_set_text hi nothing_set, false)
foreign_text_passes_example = foreign_text_passes hi [] nothing_set refl
