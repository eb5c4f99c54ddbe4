-- ===== src/Linux/X11/Own.antt =====
-- linux/src/clipboard_manager_x11.cpp: dataChanged for the helper's own objects and for those of other
-- applications, when it comes behind a task and when it comes within its setMimeData.
use clipboard_helper.Prelude.{
  ℕ, ◌≡◌, refl, inl, inr, Option, none, some, Bool, true, false, List, arith, if◌then◌else◌,
  Bool-cases, Bytes, bytes_eq,
}
use clipboard_helper.Linux.Manager.{pushed}
use clipboard_helper.Linux.Echo.{
  EchoSuppressor, is_announced_mime, consume_eager_set_text_echo, mime_destroyed,
}
use clipboard_helper.Linux.Wayland.Sends.{ImageFormat}
use clipboard_helper.Linux.X11.{
  X11Manager, new_manager, Mime, plain_text, image_data, delayed, foreign, place_delayed, place,
  replace_mime, release_mime, mime_of,
}
use clipboard_helper.Linux.X11.Delayed.{text, formats, retrieve_data, retrieval_of, own_data}
use clipboard_helper.Linux.X11.Changes.{
  Change, quiet, reported, blocked, report, after_echo, on_text, after_reading, has_text, read_text,
  reading_of, changed_from, on_clipboard_changed,
}
use clipboard_helper.Linux.X11.Events.{Event, happen_all, happen, external_copy}
use clipboard_helper.Linux.X11.Echoes.{IsTracked, happen_all-IsTracked, expected, release-none}

is_announced-eq :
    (a : ℕ) (echo : EchoSuppressor)
    → echo.announced_mime ≡ some a
    → is_announced_mime echo (some a) ≡ true
unfolding is_announced_mime
is_announced-eq a echo h = ground arith

is_announced-none :
    (a : ℕ) (echo : EchoSuppressor)
    → echo.announced_mime ≡ none
    → is_announced_mime echo (some a) ≡ false
unfolding is_announced_mime
is_announced-none a echo h = ground arith

-- Whether the text is the one that SetClipboardText waits to see.
abbrev pub awaits : Option Bytes → Bytes → Bool
awaits none utf8 = false
awaits (some t) utf8 = bytes_eq t utf8

consume-awaits :
    (utf8 : Bytes) (echo : EchoSuppressor)
    → consume_eager_set_text_echo utf8 echo ≡ (
        if awaits echo.last_set_text utf8
        then (record echo { last_set_text = none }, true)
        else (echo, false))
unfolding consume_eager_set_text_echo
consume-awaits utf8 echo = ground arith

destroyed-last :
    (a : ℕ) (echo : EchoSuppressor) → (mime_destroyed a echo).last_set_text ≡ echo.last_set_text
unfolding mime_destroyed
destroyed-last a echo = ground arith

release-last :
    {I : Type 0} (c : Option (ℕ × Mime I)) (echo : EchoSuppressor)
    → (release_mime c echo).last_set_text ≡ echo.last_set_text
unfolding release_mime
release-last none echo = refl
release-last (some (a, mime)) echo = destroyed-last a echo

module _ {I : Type 0} where
  -- What a text that is seen on the clipboard is for the helper.
  abbrev pub meant_text : ℕ → Bytes → X11Manager I → X11Manager I × Change
  meant_text clock utf8 m =
      if awaits m.echo.last_set_text utf8
      then (record m { echo = record m.echo { last_set_text = none } }, quiet)
      else (
        record m { state = record m.state { cached_clipboard_text = some utf8 } },
        reported (pushed m.state.on_changed clock utf8),
      )

  on_text-meant :
      (clock : ℕ) (utf8 : Bytes) (m : X11Manager I) → on_text clock utf8 m ≡ meant_text clock utf8 m
  unfolding on_text after_echo report
  on_text-meant clock utf8 m =
      rw (consume-awaits utf8 m.echo) (elim (Bool-cases (awaits m.echo.last_set_text utf8)) [
        | inl e ↦ rw e refl
        | inr e ↦ rw e refl
      ])

  -- The announced objects and images are the helper's own; a text that was set and another
  -- application's object are read.
  abbrev pub meant :
      (Bytes → Bytes) → ℕ → Option (ℕ × Mime I) → X11Manager I → X11Manager I × Change
  meant reencode clock none m = (m, quiet)
  meant reencode clock (some (a, plain_text utf8)) m = meant_text clock (reencode utf8) m
  meant reencode clock (some (a, image_data img)) m = (m, quiet)
  meant reencode clock (some (a, delayed hash kind)) m = (m, quiet)
  meant reencode clock (some (a, foreign true utf8)) m = meant_text clock utf8 m
  meant reencode clock (some (a, foreign false utf8)) m = (m, quiet)

module _ {I : Type 0} (decode : Bytes → Option I) (save : I → ImageFormat → Option Bytes)
    (reencode : Bytes → Bytes) (formats_text : List Bytes → Bool) where
  from-meant :
      (clock : ℕ) (c : Option (ℕ × Mime I)) (m : X11Manager I)
      → m.echo.announced_mime ≡ expected c
      → changed_from decode save reencode formats_text clock c m ≡ meant reencode clock c m
  unfolding changed_from has_text after_reading read_text
  from-meant clock none m h = refl
  from-meant clock (some (a, plain_text utf8)) m h =
      rw (is_announced-none a m.echo h) (on_text-meant clock (reencode utf8) m)
  from-meant clock (some (a, image_data img)) m h = rw (is_announced-eq a m.echo h) refl
  from-meant clock (some (a, delayed hash kind)) m h = rw (is_announced-eq a m.echo h) refl
  from-meant clock (some (a, foreign true utf8)) m h =
      rw (is_announced-none a m.echo h) (on_text-meant clock utf8 m)
  from-meant clock (some (a, foreign false utf8)) m h = rw (is_announced-none a m.echo h) refl

  -- Behind any events on a new manager: an announced object, an image and a foreign object without
  -- text are passed over; a text that was set and that of another application are read at once, and
  -- are consumed if they are the awaited text, else cached and reported.
  pub changed-meant :
      (es : List Event) (clock : ℕ)
      → on_clipboard_changed decode save reencode formats_text true clock
          (happen_all decode save reencode formats_text es new_manager)
        ≡ meant reencode clock
            (happen_all decode save reencode formats_text es new_manager).clipboard
            (happen_all decode save reencode formats_text es new_manager)
  unfolding on_clipboard_changed
  changed-meant es clock =
      let m : X11Manager I = happen_all decode save reencode formats_text es new_manager in
      from-meant clock m.clipboard m
        (happen_all-IsTracked decode save reencode formats_text es new_manager refl)

  copied :
      (a clock : ℕ) (utf8 : Bytes) (m : X11Manager I)
      → IsTracked m
      → on_clipboard_changed decode save reencode formats_text true clock
          (happen decode save reencode formats_text (external_copy a true utf8) m)
        ≡ meant_text clock utf8 (replace_mime (some (a, foreign true utf8)) m)
  unfolding on_clipboard_changed happen replace_mime
  copied a clock utf8 m h =
      from-meant clock (some (a, foreign true utf8)) (replace_mime (some (a, foreign true utf8)) m)
        (release-none m.clipboard m.echo h)

  -- Behind any events on a new manager, another application copies a text: the next dataChanged calls
  -- the changed callback with it and caches it, unless it is the text that SetClipboardText still
  -- waits to see; then the callback is not called and the cache stays.
  pub external_copy-reported :
      (es : List Event) (a clock : ℕ) (utf8 : Bytes)
      → let m = happen_all decode save reencode formats_text es new_manager in
        let r =
          on_clipboard_changed decode save reencode formats_text true clock
            (happen decode save reencode formats_text (external_copy a true utf8) m) in
        (r.1 ≡ (
          if awaits m.echo.last_set_text utf8
          then quiet
          else reported (pushed m.state.on_changed clock utf8)))
        × (r.0.state.cached_clipboard_text ≡ (
            if awaits m.echo.last_set_text utf8 then m.state.cached_clipboard_text else some utf8))
  unfolding replace_mime
  external_copy-reported es a clock utf8 =
      let m : X11Manager I = happen_all decode save reencode formats_text es new_manager in
      rw
        (
          copied a clock utf8 m
              (happen_all-IsTracked decode save reencode formats_text es new_manager refl),
          release-last m.clipboard m.echo,
        )
        (elim (Bool-cases (awaits m.echo.last_set_text utf8)) [
          | inl e ↦ rw e (refl, refl)
          | inr e ↦ rw e (refl, refl)
        ])

  blocks_when :
      (hash : Bytes) (a clock : ℕ) (m : X11Manager I)
      → m.echo.announced_mime ≡ none
      → formats_text (formats text) ≡ true
      → own_data m.state hash ≡ none
      → (changed_from decode save reencode formats_text clock (some (a, delayed hash text)) m).1
        ≡ blocked hash (pushed m.state.on_request clock hash)
  unfolding changed_from has_text read_text retrieve_data retrieval_of reading_of after_reading
  blocks_when hash a clock m none_own shows empty =
      rw (is_announced-none a m.echo none_own, shows, empty) refl

  -- dataChanged within the setMimeData of a text announcement, whose data has not come: the slot asks
  -- the parent for the data that it announced, and waits on the main thread.
  pub early_echo-blocks :
      (hash : Bytes) (a clock : ℕ) (es : List Event)
      → formats_text (formats text) ≡ true
      → own_data (happen_all decode save reencode formats_text es new_manager).state hash ≡ none
      → (on_clipboard_changed decode save reencode formats_text true clock (
          place a
            (place_delayed hash text)
            (happen_all decode save reencode formats_text es new_manager))).1
        ≡ blocked hash (
            pushed
              (happen_all decode save reencode formats_text es new_manager).state.on_request
              clock
              hash)
  unfolding on_clipboard_changed place replace_mime mime_of
  early_echo-blocks hash a clock es shows empty =
      let m : X11Manager I = happen_all decode save reencode formats_text es new_manager in
      let own =
        release-none m.clipboard m.echo
          (happen_all-IsTracked decode save reencode formats_text es new_manager refl) in
      blocks_when hash a clock (place a (place_delayed hash text) m) own shows empty
