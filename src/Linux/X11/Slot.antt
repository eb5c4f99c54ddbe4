-- ===== src/Linux/X11/Slot.antt =====
-- linux/src/clipboard_manager_x11.cpp: the shared state against what it stands for, a slot with the
-- announced hash and the content, if it has come. The field `pending_data_hash` and the comparisons
-- with it have no counterpart in the slot, and neither have the queue and the clipboard.
use clipboard_helper.Prelude.{
  ℕ, ◌≡◌, refl, ◌∙◌, Option, none, some, Bool, true, false, List, [], ◌∷◌, arith, if◌then◌else◌,
  if-cases, Bytes, bytes_eq, bytes_eq_iff,
}
use clipboard_helper.Linux.Echo.{EchoSuppressor, is_announced_mime, consume_eager_set_text_echo}
use clipboard_helper.Linux.Wayland.Sends.{ImageFormat}
use clipboard_helper.Linux.X11.{
  X11Manager, Mime, Task, clear_clipboard, Caller, off_main, on_main, no_application, x11_manager,
  run_next, run_task, place, replace_mime, invoke_on_main, place_decoded, destroy, announce_delayed,
  set_clipboard_text, provide_data, set_announced, set_provided, place_image,
}
use clipboard_helper.Linux.X11.Delayed.{DelayedState, own_data}
use clipboard_helper.Linux.X11.Changes.{
  Change, Reading, ready, waits, report, after_echo, on_text, after_reading, has_text, read_text,
  changed_from, on_clipboard_changed,
}
use clipboard_helper.Linux.X11.Events.{
  Event, set_text, set_image, announce, provide, install, main_runs, external_copy, data_changed,
  destroyed, happen, happen_all,
}

pub record Slot : Type 0 where
  pub key : Bytes
  pub content : Option Bytes

abbrev pub view : DelayedState → Slot
view s = record { key = s.current_hash; content = s.pending_data }

-- Only an announcement and an answer to it change the slot.
abbrev pub specify : Event → Slot → Slot
specify (announce kind hash) slot = record { key = hash; content = none }
specify (provide hash bytes) slot =
    if bytes_eq slot.key hash then record slot { content = some bytes } else slot
specify (set_text utf8) slot = slot
specify (set_image webp_bytes) slot = slot
specify (install changed request) slot = slot
specify (main_runs b a) slot = slot
specify (external_copy a b utf8) slot = slot
specify (data_changed b clock) slot = slot
specify (destroyed b a) slot = slot

abbrev pub specify_all : List Event → Slot → Slot
specify_all [] slot = slot
specify_all (e ∷ es) slot = specify_all es (specify e slot)

-- What the slot has for an object of a hash.
abbrev pub content_for : Slot → Bytes → Option Bytes
content_for slot hash = if bytes_eq slot.key hash then slot.content else none

abbrev pub Fits : Option Bytes → Bytes → Bytes → Type 0
Fits none hash key = Unit
Fits (some bytes) hash key = hash ≡ key

-- What of the state an event leaves alone: the slot, and that its pending data is the current hash's.
abbrev Keeps : DelayedState → DelayedState → Type 0
Keeps s t =
    (t.current_hash ≡ s.current_hash)
    × (t.pending_data ≡ s.pending_data)
    × (t.pending_data_hash ≡ s.pending_data_hash)

-- Pending data is always that of the current hash.
abbrev pub IsConsistent : DelayedState → Type 0
IsConsistent s = Fits s.pending_data s.pending_data_hash s.current_hash

pub own_data-content :
    (s : DelayedState) (hash : Bytes) → IsConsistent s → own_data s hash ≡ content_for (view s) hash
unfolding own_data
own_data-content s hash h =
    ground (arith, bytes_eq_iff s.pending_data_hash hash, bytes_eq_iff s.current_hash hash)

provided-IsConsistent :
    (hash bytes : Bytes) (s : DelayedState)
    → IsConsistent s
    → IsConsistent (set_provided hash bytes s)
unfolding set_provided
provided-IsConsistent hash bytes s h = ground (arith, bytes_eq_iff s.current_hash hash)

provided-view :
    (hash bytes : Bytes) (s : DelayedState)
    → view (set_provided hash bytes s) ≡ specify (provide hash bytes) (view s)
unfolding set_provided
provided-view hash bytes s = ground arith

module _ {I : Type 0} where
  run_task-state :
      (b : Bool) (a : ℕ) (task : Task I) (m : X11Manager I) → (run_task b a task m).state ≡ m.state
  unfolding run_task place replace_mime
  run_task-state true a task m = refl
  run_task-state false a task m = refl

  invoke-state :
      (caller : Caller) (task : Task I) (m : X11Manager I)
      → (invoke_on_main caller task m).state ≡ m.state
  unfolding invoke_on_main
  invoke-state no_application task m = refl
  invoke-state (on_main b a) task m = run_task-state b a task m
  invoke-state off_main task m = refl

  run_next-state : (b : Bool) (a : ℕ) (m : X11Manager I) → (run_next b a m).state ≡ m.state
  unfolding run_next
  run_next-state b a m = next m.tasks
    where
      next :
          (tasks : List (Task I))
          → let n : X11Manager I = elim tasks [
            | [] ↦ m
            | task ∷ rest ↦ run_task b a task (record m { tasks = rest })
          ] in
            n.state ≡ m.state
      next [] = refl
      next (task ∷ rest) = run_task-state b a task (record m { tasks = rest })

  decoded-state :
      (img : Option I) (m : X11Manager I) → (place_decoded off_main img m).state ≡ m.state
  unfolding place_decoded
  decoded-state none m = refl
  decoded-state (some img) m = invoke-state off_main (place_image img) m

  after_reading-Keeps :
      (clock : ℕ) (r : Reading) (m : X11Manager I) → Keeps m.state (after_reading clock r m).0.state
  unfolding after_reading on_text
  after_reading-Keeps clock (waits hash request) m = (refl, refl, refl)
  after_reading-Keeps clock (ready utf8) m = behind (consume_eager_set_text_echo utf8 m.echo)
    where
      behind : (r : EchoSuppressor × Bool) → Keeps m.state (after_echo clock utf8 r m).0.state
      behind (echo, true) = unfold after_echo report in (refl, refl, refl)
      behind (echo, false) = unfold after_echo report in (refl, refl, refl)

module _ {I : Type 0} (decode : Bytes → Option I) (save : I → ImageFormat → Option Bytes)
    (reencode : Bytes → Bytes) (formats_text : List Bytes → Bool) where
  from-Keeps :
      (clock : ℕ) (c : Option (ℕ × Mime I)) (m : X11Manager I)
      → Keeps m.state (changed_from decode save reencode formats_text clock c m).0.state
  unfolding changed_from
  from-Keeps clock none m = (refl, refl, refl)
  from-Keeps clock (some (a, mime)) m =
      let P = λ (r : X11Manager I × Change). Keeps m.state r.0.state in
      if-cases P (is_announced_mime m.echo (some a)) (λ _. (refl, refl, refl))
        (λ _.
          if-cases P (has_text decode save reencode formats_text mime)
            (λ _.
              after_reading-Keeps clock
                (read_text decode save reencode formats_text clock m.state mime) m)
            (λ _. (refl, refl, refl)))

  changed-Keeps :
      (b : Bool) (clock : ℕ) (m : X11Manager I)
      → Keeps m.state (on_clipboard_changed decode save reencode formats_text b clock m).0.state
  unfolding on_clipboard_changed
  changed-Keeps true clock m = from-Keeps clock m.clipboard m
  changed-Keeps false clock m = (refl, refl, refl)

  abbrev Follows : Event → DelayedState → DelayedState → Type 0
  Follows e s t = (IsConsistent s → IsConsistent t) × (view t ≡ specify e (view s))

  Keeps-Fits : (s t : DelayedState) → Keeps s t → IsConsistent s → IsConsistent t
  Keeps-Fits s t (a, b, c) h = rw (a, b, c) h

  Keeps-view : (s t : DelayedState) → Keeps s t → view t ≡ view s
  Keeps-view s t (a, b, c) = rw (a, b) refl

  -- One event against the slot, with the consistency that the next one wants.
  happen-Follows :
      (e : Event) (m : X11Manager I)
      → Follows e m.state (happen decode save reencode formats_text e m).state
  unfolding happen x11_manager set_clipboard_text provide_data announce_delayed destroy replace_mime
      set_announced invoke_on_main
  happen-Follows (set_text utf8) m = (λ h. h, refl)
  happen-Follows (set_image webp_bytes) m = rw (decoded-state (decode webp_bytes) m) (λ h. h, refl)
  happen-Follows (announce kind hash) m = (λ h. tt, refl)
  happen-Follows (provide hash bytes) m =
      (provided-IsConsistent hash bytes m.state, provided-view hash bytes m.state)
  happen-Follows (install changed request) m = (λ h. h, refl)
  happen-Follows (main_runs b a) m = rw (run_next-state b a m) (λ h. h, refl)
  happen-Follows (external_copy a b utf8) m = (λ h. h, refl)
  happen-Follows (data_changed b clock) m =
      let t = on_clipboard_changed decode save reencode formats_text b clock m in
      let k = changed-Keeps b clock m in
      (Keeps-Fits m.state t.0.state k, Keeps-view m.state t.0.state k)
  happen-Follows (destroyed b a) m =
      rw
        (run_task-state b a clear_clipboard
          (record m { state = record m.state { stop = true }; tasks = [] }))
        (λ h. h, refl)

  pub happen_all-IsConsistent :
      (es : List Event) (m : X11Manager I)
      → IsConsistent m.state
      → IsConsistent (happen_all decode save reencode formats_text es m).state
  unfolding happen_all
  happen_all-IsConsistent [] m h = h
  happen_all-IsConsistent (e ∷ es) m h =
      happen_all-IsConsistent es (happen decode save reencode formats_text e m)
        ((happen-Follows e m).0 h)

  pub happen_all-view :
      (es : List Event) (m : X11Manager I)
      → view (happen_all decode save reencode formats_text es m).state
        ≡ specify_all es (view m.state)
  unfolding happen_all
  happen_all-view [] m = refl
  happen_all-view (e ∷ es) m =
      let step = (happen-Follows e m).1 in
      happen_all-view es (happen decode save reencode formats_text e m) ∙ rw step refl
