-- ===== src/Windows/Sta/Lifecycle.antt =====
-- windows/src/sta_worker.cpp: Start, Stop and ThreadMain. What ThreadMain does outside is a list of
-- actions, in their order; Setup is what the calls of its initialisation answer.
use clipboard_helper.Prelude.{
  ℕ, ◌+◌, ◌≡◌, refl, Bool, true, false, not, ◌&&◌, ◌||◌, List, [], ◌∷◌, if◌then◌else◌, ◌==◌,
  Bool-cases, inl, inr,
}

pub data Action : Type 0 where
  ole_initialized ole_uninitialized : Action
  window_created window_destroyed : Action
  listener_removed wic_factory_reset : Action
  window_published window_cleared : Action
  init_signalled : Bool → Action
  messages_pumped tasks_dropped : Action

-- `register_error` is GetLastError where RegisterClassW fails, and 0 where it succeeds.
pub record Setup : Type 0 where
  pub ole_initializes : Bool
  pub register_error : ℕ
  pub creates_window : Bool

-- Behind the window.
abbrev pub main_loop : List Action
main_loop =
    window_published
    ∷ init_signalled true
    ∷ messages_pumped
    ∷ window_cleared
    ∷ tasks_dropped
    ∷ listener_removed
    ∷ window_destroyed
    ∷ wic_factory_reset
    ∷ ole_uninitialized
    ∷ []

unfoldable pub create_window : Bool → List Action
create_window created =
    if created then window_created ∷ main_loop else ole_uninitialized ∷ init_signalled false ∷ []

unfoldable pub register_class : ℕ → Bool → List Action
unfolding create_window
register_class error created =
    if error == 0 || error == 1410
    then create_window created
    else ole_uninitialized ∷ init_signalled false ∷ []

unfoldable pub thread_main : Setup → List Action
unfolding register_class
thread_main s =
    if s.ole_initializes
    then ole_initialized ∷ register_class s.register_error s.creates_window
    else init_signalled false ∷ []

abbrev pub initializes : Setup → Bool
initializes s =
    s.ole_initializes && ((s.register_error == 0 || s.register_error == 1410) && s.creates_window)

-- How often an action happens.
abbrev pub same : Action → Action → Bool
same ole_initialized ole_initialized = true
same ole_uninitialized ole_uninitialized = true
same window_created window_created = true
same window_destroyed window_destroyed = true
same messages_pumped messages_pumped = true
same tasks_dropped tasks_dropped = true
same (init_signalled true) (init_signalled true) = true
same (init_signalled false) (init_signalled false) = true
same _ _ = false

abbrev pub times : Action → List Action → ℕ
times a [] = 0
times a (b ∷ bs) = (if same a b then 1 else 0) + times a bs

-- ThreadMain, whatever the calls of its initialisation answer: it signals the end of the initialisation
-- once, with success exactly if all calls succeed or the class was registered before, and pumps the
-- messages and drops the tasks exactly then; each OLE initialisation is undone, and each window destroyed.
pub thread_main-signals :
    (s : Setup)
    → (times (init_signalled true) (thread_main s) ≡ (if initializes s then 1 else 0))
      × (times (init_signalled false) (thread_main s) ≡ (if initializes s then 0 else 1))
      × (times messages_pumped (thread_main s) ≡ (if initializes s then 1 else 0))
      × (times tasks_dropped (thread_main s) ≡ (if initializes s then 1 else 0))
      × (times ole_uninitialized (thread_main s) ≡ times ole_initialized (thread_main s))
      × (times window_destroyed (thread_main s) ≡ times window_created (thread_main s))
unfolding thread_main
thread_main-signals s = elim (Bool-cases s.ole_initializes) [
  | inr e ↦ rw e (refl, refl, refl, refl, refl, refl)
  | inl e ↦ elim (Bool-cases (s.register_error == 0 || s.register_error == 1410)) [
    | inr f ↦ rw (e, f) (refl, refl, refl, refl, refl, refl)
    | inl f ↦ elim (Bool-cases s.creates_window) [
      | inr g ↦ rw (e, f, g) (refl, refl, refl, refl, refl, refl)
      | inl g ↦ rw (e, f, g) (refl, refl, refl, refl, refl, refl)
    ]
  ]
]

-- `joinable` is whether there is a thread, the other two are what signal_init has left.
pub record Worker : Type 0 where
  pub joinable : Bool
  pub init_done : Bool
  pub init_ok : Bool

abbrev pub new_worker : Worker
new_worker = record { joinable = false; init_done = false; init_ok = false }

-- signal_init.
unfoldable pub signal_init : Bool → Worker → Worker
signal_init result w = record w { init_ok = result; init_done = true }

-- Start: `result` is what the new thread signals, and `before` whether it has done so when Start begins
-- to wait. A wait whose predicate holds is none.
unfoldable pub start : Bool → Bool → Worker → Bool × Worker
unfolding signal_init
start result before w =
    if w.joinable
    then (true, w)
    else (let started = record w { joinable = true } in
        if before || not w.init_done
        then (result, signal_init result started)
        else (started.init_ok, started))

unfoldable pub stop : Worker → Worker
stop w = record w { joinable = false }

-- The first Start returns what its thread signals, whenever that is. Behind a Stop, a Start whose thread
-- has not signalled yet returns the result of the earlier thread, and does not wait for its own.
pub start-stop :
    (first second before : Bool)
    → ((start first before new_worker).0 ≡ first)
      × ((start second false (stop (start first before new_worker).1)).0 ≡ first)
      × ((start second true (stop (start first before new_worker).1)).0 ≡ second)
unfolding start stop
start-stop first second true = (refl, refl, refl)
start-stop first second false = (refl, refl, refl)
