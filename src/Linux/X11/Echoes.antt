-- ===== src/Linux/X11/Echoes.antt =====
-- linux/src/clipboard_manager_x11.cpp: the object that the suppressor takes for the helper's own, and
-- the object on the clipboard.
use clipboard_helper.Prelude.{
  ℕ, ◌≡◌, refl, ◌∙◌, Option, none, some, Bool, true, false, List, [], ◌∷◌, arith, if-cases, Bytes,
}
use clipboard_helper.Linux.Echo.{
  EchoSuppressor, mime_destroyed, record_announced_mime, record_eager_set_text, is_announced_mime,
  consume_eager_set_text_echo,
}
use clipboard_helper.Linux.Wayland.Sends.{ImageFormat}
use clipboard_helper.Linux.X11.{
  X11Manager, Mime, plain_text, image_data, delayed, foreign, Task, place_text, place_image,
  place_delayed, clear_clipboard, Caller, off_main, on_main, no_application, x11_manager, run_next,
  run_task, place, replace_mime, release_mime, record_echo, mime_of, invoke_on_main, place_decoded,
  destroy, announce_delayed, set_clipboard_text, provide_data,
}
use clipboard_helper.Linux.X11.Changes.{
  Change, Reading, ready, waits, report, after_echo, on_text, after_reading, has_text, read_text,
  changed_from, on_clipboard_changed,
}
use clipboard_helper.Linux.X11.Events.{
  Event, set_text, set_image, announce, provide, install, main_runs, external_copy, data_changed,
  destroyed, happen, happen_all,
}

-- The address that the suppressor should have: that of an object which a task records.
abbrev pub expected : {I : Type 0} → Option (ℕ × Mime I) → Option ℕ
expected none = none
expected (some (a, plain_text utf8)) = none
expected (some (a, image_data img)) = some a
expected (some (a, delayed hash kind)) = some a
expected (some (a, foreign b utf8)) = none

destroyed-none :
    (a : ℕ) (echo : EchoSuppressor)
    → echo.announced_mime ≡ none
    → (mime_destroyed a echo).announced_mime ≡ none
unfolding mime_destroyed
destroyed-none a echo h = ground arith

destroyed_self :
    (a : ℕ) (echo : EchoSuppressor)
    → echo.announced_mime ≡ some a
    → (mime_destroyed a echo).announced_mime ≡ none
unfolding mime_destroyed
destroyed_self a echo h = ground arith

pub release-none :
    {I : Type 0} (c : Option (ℕ × Mime I)) (echo : EchoSuppressor)
    → echo.announced_mime ≡ expected c
    → (release_mime c echo).announced_mime ≡ none
unfolding release_mime
release-none none echo h = h
release-none (some (a, plain_text utf8)) echo h = destroyed-none a echo h
release-none (some (a, image_data img)) echo h = destroyed_self a echo h
release-none (some (a, delayed hash kind)) echo h = destroyed_self a echo h
release-none (some (a, foreign b utf8)) echo h = destroyed-none a echo h

recorded :
    {I : Type 0} (a : ℕ) (task : Task I) (echo : EchoSuppressor)
    → echo.announced_mime ≡ none
    → (record_echo a task echo).announced_mime ≡ expected (mime_of a task)
unfolding record_echo mime_of record_announced_mime record_eager_set_text
recorded a (place_text utf8) echo h = h
recorded a (place_image img) echo h = refl
recorded a (place_delayed hash kind) echo h = refl
recorded a clear_clipboard echo h = h

consume-announced :
    (utf8 : Bytes) (echo : EchoSuppressor)
    → (consume_eager_set_text_echo utf8 echo).0.announced_mime ≡ echo.announced_mime
unfolding consume_eager_set_text_echo
consume-announced utf8 echo = ground arith

module _ {I : Type 0} where
  abbrev pub IsTracked : X11Manager I → Type 0
  IsTracked m = m.echo.announced_mime ≡ expected m.clipboard

  run_task-IsTracked :
      (b : Bool) (a : ℕ) (task : Task I) (m : X11Manager I)
      → IsTracked m
      → IsTracked (run_task b a task m)
  unfolding run_task place replace_mime
  run_task-IsTracked b a task m h =
      if-cases IsTracked b
        (λ _. recorded a task (release_mime m.clipboard m.echo) (release-none m.clipboard m.echo h))
        (λ _. h)

  invoke-IsTracked :
      (caller : Caller) (task : Task I) (m : X11Manager I)
      → IsTracked m
      → IsTracked (invoke_on_main caller task m)
  unfolding invoke_on_main
  invoke-IsTracked no_application task m h = h
  invoke-IsTracked (on_main b a) task m h = run_task-IsTracked b a task m h
  invoke-IsTracked off_main task m h = h

  run_next-IsTracked :
      (b : Bool) (a : ℕ) (m : X11Manager I) → IsTracked m → IsTracked (run_next b a m)
  unfolding run_next
  run_next-IsTracked b a m h = next m.tasks
    where
      next :
          (tasks : List (Task I))
          → IsTracked
              (elim tasks [ [] ↦ m | task ∷ rest ↦ run_task b a task (record m { tasks = rest }) ])
      next [] = h
      next (task ∷ rest) = run_task-IsTracked b a task (record m { tasks = rest }) h

  decoded-IsTracked :
      (img : Option I) (m : X11Manager I) → IsTracked m → IsTracked (place_decoded off_main img m)
  unfolding place_decoded
  decoded-IsTracked none m h = h
  decoded-IsTracked (some img) m h = invoke-IsTracked off_main (place_image img) m h

  after_echo-IsTracked :
      (clock : ℕ) (utf8 : Bytes) (r : EchoSuppressor × Bool) (m : X11Manager I)
      → r.0.announced_mime ≡ expected m.clipboard
      → IsTracked (after_echo clock utf8 r m).0
  unfolding after_echo report
  after_echo-IsTracked clock utf8 (echo, true) m h = h
  after_echo-IsTracked clock utf8 (echo, false) m h = h

  after_reading-IsTracked :
      (clock : ℕ) (r : Reading) (m : X11Manager I)
      → IsTracked m
      → IsTracked (after_reading clock r m).0
  unfolding after_reading on_text
  after_reading-IsTracked clock (ready utf8) m h =
      after_echo-IsTracked clock utf8 (consume_eager_set_text_echo utf8 m.echo) m
        (consume-announced utf8 m.echo ∙ h)
  after_reading-IsTracked clock (waits hash request) m h = h

module _ {I : Type 0} (decode : Bytes → Option I) (save : I → ImageFormat → Option Bytes)
    (reencode : Bytes → Bytes) (formats_text : List Bytes → Bool) where
  from-IsTracked :
      (clock : ℕ) (c : Option (ℕ × Mime I)) (m : X11Manager I)
      → IsTracked m
      → IsTracked (changed_from decode save reencode formats_text clock c m).0
  unfolding changed_from
  from-IsTracked clock none m h = h
  from-IsTracked clock (some (a, mime)) m h =
      if-cases (λ (r : X11Manager I × Change). IsTracked r.0) (is_announced_mime m.echo (some a))
        (λ _. h)
        (λ _.
          if-cases (λ (r : X11Manager I × Change). IsTracked r.0)
            (has_text decode save reencode formats_text mime)
            (λ _.
              after_reading-IsTracked clock
                (read_text decode save reencode formats_text clock m.state mime) m h)
            (λ _. h))

  happen-IsTracked :
      (e : Event) (m : X11Manager I)
      → IsTracked m
      → IsTracked (happen decode save reencode formats_text e m)
  unfolding happen x11_manager set_clipboard_text provide_data announce_delayed destroy replace_mime
      on_clipboard_changed
  happen-IsTracked (set_text utf8) m h = invoke-IsTracked off_main (place_text utf8) _ h
  happen-IsTracked (set_image webp_bytes) m h = decoded-IsTracked (decode webp_bytes) m h
  happen-IsTracked (announce kind hash) m h =
      invoke-IsTracked off_main (place_delayed hash kind) _ h
  happen-IsTracked (provide hash bytes) m h = h
  happen-IsTracked (install changed request) m h = h
  happen-IsTracked (main_runs b a) m h = run_next-IsTracked b a m h
  happen-IsTracked (external_copy a b utf8) m h = release-none m.clipboard m.echo h
  happen-IsTracked (data_changed b clock) m h =
      if-cases (λ (r : X11Manager I × Change). IsTracked r.0) b
        (λ _. from-IsTracked clock m.clipboard m h) (λ _. h)
  happen-IsTracked (destroyed b a) m h = invoke-IsTracked (on_main b a) clear_clipboard _ h

  pub happen_all-IsTracked :
      (es : List Event) (m : X11Manager I)
      → IsTracked m
      → IsTracked (happen_all decode save reencode formats_text es m)
  unfolding happen_all
  happen_all-IsTracked [] m h = h
  happen_all-IsTracked (e ∷ es) m h =
      happen_all-IsTracked es (happen decode save reencode formats_text e m)
        (happen-IsTracked e m h)
