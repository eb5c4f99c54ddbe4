-- ===== src/Linux/X11/Changes.antt =====
-- linux/src/clipboard_manager_x11.cpp: OnClipboardChanged. It is one step, or two where text() of a
-- DelayedClipboardMimeData has to wait. Whether QGuiApplication::clipboard() is not null is an
-- argument. Which formats make hasText() true is a parameter, like
-- `reencode`, libwebp's decoder and QImage's encoder.
use clipboard_helper.Prelude.{
  ℕ, Option, none, some, Bool, true, false, List, [], if◌then◌else◌, Bytes,
}
use clipboard_helper.Linux.Manager.{pushed}
use clipboard_helper.Linux.Echo.{EchoSuppressor, is_announced_mime, consume_eager_set_text_echo}
use clipboard_helper.Linux.Wayland.Sends.{ImageFormat}
use clipboard_helper.Linux.X11.{X11Manager, Mime, plain_text, image_data, delayed, foreign}
use clipboard_helper.Linux.X11.Formats.{plain_format}
use clipboard_helper.Linux.X11.Delayed.{
  ContentKind, DelayedState, formats, q_string, Variant, invalid, string, byte_array, image_value,
  Retrieval, returned, blocks, retrieve_data, resume_retrieve,
}

-- What OnClipboardChanged does: nothing, the changed callback with its frame, or a wait within text()
-- for a hash, behind the request callback's frame.
pub data Change : Type 0 where
  quiet : Change
  reported : Option Bytes → Change
  blocked : Bytes → Option Bytes → Change

-- What text() does.
pub data Reading : Type 0 where
  ready : Bytes → Reading
  waits : Bytes → Option Bytes → Reading

module _ {I : Type 0} where
  unfoldable pub report : ℕ → Bytes → X11Manager I → X11Manager I × Change
  report clock utf8 m = (
    record m { state = record m.state { cached_clipboard_text = some utf8 } },
    reported (pushed m.state.on_changed clock utf8),
  )

  -- Behind ConsumeEagerSetTextEcho.
  unfoldable pub after_echo :
      ℕ → Bytes → EchoSuppressor × Bool → X11Manager I → X11Manager I × Change
  after_echo clock utf8 (echo, true) m = (record m { echo = echo }, quiet)
  after_echo clock utf8 (echo, false) m = report clock utf8 (record m { echo = echo })

  unfoldable pub on_text : ℕ → Bytes → X11Manager I → X11Manager I × Change
  on_text clock utf8 m = after_echo clock utf8 (consume_eager_set_text_echo utf8 m.echo) m

  unfoldable pub after_reading : ℕ → Reading → X11Manager I → X11Manager I × Change
  after_reading clock (ready utf8) m = on_text clock utf8 m
  after_reading clock (waits hash request) m = (m, blocked hash request)

module _ {I : Type 0} (decode : Bytes → Option I) (save : I → ImageFormat → Option Bytes)
    (reencode : Bytes → Bytes) (formats_text : List Bytes → Bool) where
  unfoldable pub has_text : Mime I → Bool
  has_text (plain_text utf8) = true
  has_text (image_data img) = false
  has_text (delayed hash kind) = formats_text (formats kind)
  has_text (foreign b utf8) = b

  -- The text of what retrieveData returns.
  unfoldable pub text_of : Variant I → Bytes
  text_of invalid = []
  text_of (string utf8) = utf8
  text_of (byte_array bytes) = reencode bytes
  text_of (image_value img) = []

  unfoldable pub reading_of : Retrieval I → Reading
  reading_of (returned v) = ready (text_of v)
  reading_of (blocks hash request) = waits hash request

  unfoldable pub read_text : ℕ → DelayedState → Mime I → Reading
  read_text clock s (plain_text utf8) = ready (reencode utf8)
  read_text clock s (image_data img) = ready []
  read_text clock s (delayed hash kind) =
      reading_of (retrieve_data decode save reencode clock s hash kind plain_format q_string)
  read_text clock s (foreign b utf8) = ready utf8

  -- The slot with the object that mimeData() returns.
  unfoldable pub changed_from : ℕ → Option (ℕ × Mime I) → X11Manager I → X11Manager I × Change
  changed_from clock none m = (m, quiet)
  changed_from clock (some (a, mime)) m =
      if is_announced_mime m.echo (some a)
      then (m, quiet)
      else if has_text mime
      then after_reading clock (read_text clock m.state mime) m
      else (m, quiet)

  unfoldable pub on_clipboard_changed : Bool → ℕ → X11Manager I → X11Manager I × Change
  on_clipboard_changed has_clipboard clock m =
      if has_clipboard then changed_from clock m.clipboard m else (m, quiet)

  unfoldable pub resumed_change :
      ℕ → Option (Variant I) → X11Manager I → Option (X11Manager I × Change)
  resumed_change clock none m = none
  resumed_change clock (some v) m = some (on_text clock (text_of v) m)

  -- The slot in the state where a wait within text() ends.
  unfoldable pub resume_changed :
      Bool → Bool → ℕ → Bytes → ContentKind → X11Manager I → Option (X11Manager I × Change)
  resume_changed timed_out stop_seen clock hash kind m =
      resumed_change clock
        (resume_retrieve decode save reencode timed_out stop_seen m.state hash kind plain_format
          q_string)
        m
