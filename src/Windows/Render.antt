-- ===== src/Windows/Render.antt =====
-- windows/src/dispatch.cpp: delayed rendering of text and images. The state is what render_mu_ guards,
-- and each critical section is a step: the start of HandleAnnounceDelayed, the end of
-- HandleProvideData, OnRenderFormat up to its wait, and a round of the wait. A render that waits is
-- its hash and its requested type, so that renders, nested ones included, interleave in any order.
pub mod Supply
pub mod Renders
use clipboard_helper.Prelude.{
  ℕ, Option, none, some, Bool, true, false, not, List, [], ◌∷◌, ◌==◌, if◌then◌else◌, Bytes,
  is_empty, bytes_eq,
}
use clipboard_helper.Proto.ContentType
use clipboard_helper.Windows.Codec.Encoders.{encode_data_request}

-- `event` is whether render_event_ is there, and `signalled` whether it is set.
pub record RenderState : Type 0 where
  pub pending_hash : Bytes
  pub pending_type : ℕ
  pub pending_response : Bytes
  pub cached_response : Bytes
  pub cached_valid : Bool
  pub event : Bool
  pub signalled : Bool

-- A new Dispatcher, by whether CreateEventW succeeds.
abbrev pub new_render_state : Bool → RenderState
new_render_state created = record {
  pending_hash = [];
  pending_type = ContentType.unspecified;
  pending_response = [];
  cached_response = [];
  cached_valid = false;
  event = created;
  signalled = false;
}

-- The block under the lock of HandleAnnounceDelayed.
unfoldable pub announce_render : Bytes → ℕ → RenderState → RenderState
announce_render content_hash content_type s = record s {
  pending_hash = content_hash;
  pending_type = content_type;
  pending_response = [];
  cached_response = [];
  cached_valid = false;
  signalled = false;
}

-- CancelPendingRender, and the calls of SetEvent.
unfoldable pub signal : RenderState → RenderState
signal s = if s.event then record s { signalled = true } else s

-- The block under the lock of HandleProvideData.
unfoldable pub provide_render : Bytes → Bytes → RenderState → RenderState
provide_render content_hash content s =
    if is_empty s.pending_hash
    then s
    else if bytes_eq content_hash s.pending_hash
    then signal (record s { pending_response = content })
    else s

-- The format of WM_RENDERFORMAT, an `unsigned int`.
pub data Format : Type 0 where
  cf_unicodetext cf_dibv5 cf_dib other_format : Format

unfoldable pub requested_type : Format → Option ℕ
requested_type cf_unicodetext = some ContentType.text
requested_type cf_dibv5 = some ContentType.image
requested_type cf_dib = some ContentType.image
requested_type other_format = none

-- What a part of OnRenderFormat comes to: nothing is rendered, the bytes are, or the render waits.
pub data Progress : Type 0 where
  left_empty : Progress
  renders : Bytes → Progress
  waits : Progress

-- `std::move(pending_response_)`, and the cache.
unfoldable pub adopt : RenderState → Progress × RenderState
adopt s = (
  renders s.pending_response,
  record s { pending_response = []; cached_response = s.pending_response; cached_valid = true },
)

-- OnRenderFormat up to its wait, with the frame that it sends: `sent` is whether SendFrame succeeds.
unfoldable pub ask_parent :
    Bool → Bool → ℕ → ℕ → RenderState → Progress × RenderState × Option Bytes
ask_parent cache_only sent requested clock s =
    if cache_only
    then (left_empty, s, none)
    else if sent
    then (
      if s.event then waits else left_empty,
      s,
      some (encode_data_request s.pending_hash requested clock),
    )
    else (left_empty, s, none)

unfoldable pub begin_requested :
    Option ℕ → Bool → Bool → ℕ → RenderState → Progress × RenderState × Option Bytes
begin_requested none cache_only sent clock s = (left_empty, s, none)
begin_requested (some requested) cache_only sent clock s =
    if is_empty s.pending_hash
    then (left_empty, s, none)
    else if not (s.pending_type == requested)
    then (left_empty, s, none)
    else if s.cached_valid
    then (renders s.cached_response, s, none)
    else if not (is_empty s.pending_response)
    then ((adopt s).0, (adopt s).1, none)
    else ask_parent cache_only sent requested clock s

unfoldable pub on_render_format :
    Format → Bool → Bool → ℕ → RenderState → Progress × RenderState × Option Bytes
on_render_format format cache_only sent clock s =
    begin_requested (requested_type format) cache_only sent clock s

-- A return of MsgWaitForMultipleObjects; of the message pump behind it, whether it met WM_QUIT.
pub data Wake : Type 0 where
  signalled_wake : Wake
  message_wake : Bool → Wake
  timeout_wake : Wake
  failed_wake : Wake

-- Behind the signal.
unfoldable pub after_wake : Bytes → RenderState → Progress × RenderState
after_wake hash s =
    if not (bytes_eq s.pending_hash hash)
    then (left_empty, s)
    else if not (is_empty s.pending_response)
    then adopt s
    else if s.cached_valid
    then (renders s.cached_response, s)
    else (left_empty, s)

-- Behind the message pump.
unfoldable pub after_pump : Bytes → RenderState → Progress
after_pump hash s =
    if not (bytes_eq s.pending_hash hash)
    then left_empty
    else if s.cached_valid
    then renders s.cached_response
    else waits

-- A round of the wait: `expired` is whether the elapsed time has reached the timeout.
unfoldable pub wait_round : Bool → Wake → Bytes → RenderState → Progress × RenderState
wait_round true w hash s = (left_empty, s)
wait_round false signalled_wake hash s = after_wake hash s
wait_round false (message_wake got_quit) hash s =
    (if got_quit then left_empty else after_pump hash s, s)
wait_round false timeout_wake hash s = (left_empty, s)
wait_round false failed_wake hash s = (left_empty, s)

-- What acts on the state, in any order: announcements and answers on the pipe's thread, renders on the
-- STA thread, CancelPendingRender on a third.
pub data Event : Type 0 where
  announced : Bytes → ℕ → Event
  provided : Bytes → Bytes → Event
  begun : Format → Bool → Bool → ℕ → Event
  woken : Bool → Wake → Bytes → Event
  cancelled : Event

abbrev pub occur : Event → RenderState → RenderState
occur (announced hash t) s = announce_render hash t s
occur (provided hash content) s = provide_render hash content s
occur (begun format cache_only sent clock) s = (on_render_format format cache_only sent clock s).1
occur (woken expired w hash) s = (wait_round expired w hash s).1
occur cancelled s = signal s

abbrev pub occur_all : List Event → RenderState → RenderState
occur_all [] s = s
occur_all (e ∷ es) s = occur_all es (occur e s)
