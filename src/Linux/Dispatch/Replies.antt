-- ===== src/Linux/Dispatch/Replies.antt =====
-- What every call of Handle guarantees: replies, and what it leaves alone.
use clipboard_helper.Prelude.{
  ℕ, ◌+◌, ◌≡◌, ◌⊎◌, inl, inr, refl, Option, none, some, Bool, ◌&&◌, [], arith, ◌==◌, if◌then◌else◌,
  Bytes, Option-cases,
}
use clipboard_helper.Prelude.Parse.{succeeded}
use clipboard_helper.Proto.MessageType
use clipboard_helper.Linux.Codec.{ParsedHelperMessage, parse_helper_message}
use clipboard_helper.Linux.Manager.{ClipboardManager}
use clipboard_helper.Linux.Dispatch.{
  Dispatcher, handle_set_clipboard, handle_announce_delayed, handle_provide_data,
  handle_get_clipboard, handle_shutdown, route, handle,
}

-- The shutdown requests that a message of this type makes.
abbrev pub requests_of : Bool → Option ParsedHelperMessage → ℕ
requests_of has_callback none = 0
requests_of has_callback (some msg) =
    if msg.type == MessageType.shutdown && has_callback then 1 else 0

module _ {M : Type 0} (ops : ClipboardManager M) where
  -- A reply means that the call changed nothing.
  abbrev pub RepliesOrActs : Dispatcher M → Dispatcher M × Bytes → Type 0
  RepliesOrActs d result = (result.1 ≡ []) ⊎ (result.0 ≡ d)

  handle_set_clipboard-acts :
      (d : Dispatcher M) (input : Option Bytes) (clock : ℕ)
      → RepliesOrActs d (handle_set_clipboard ops d input clock)
  unfolding handle_set_clipboard
  handle_set_clipboard-acts d input clock = ground arith

  handle_announce_delayed-acts :
      (d : Dispatcher M) (input : Option Bytes) (clock : ℕ)
      → RepliesOrActs d (handle_announce_delayed ops d input clock)
  unfolding handle_announce_delayed
  handle_announce_delayed-acts d input clock = ground arith

  handle_provide_data-acts :
      (d : Dispatcher M) (input : Option Bytes) (clock : ℕ)
      → RepliesOrActs d (handle_provide_data ops d input clock)
  unfolding handle_provide_data
  handle_provide_data-acts d input clock = ground arith

  handle_get_clipboard-acts :
      (d : Dispatcher M) (clock : ℕ) → RepliesOrActs d (handle_get_clipboard ops d clock)
  unfolding handle_get_clipboard
  handle_get_clipboard-acts d clock = ground arith

  handle_shutdown-acts : (d : Dispatcher M) → RepliesOrActs d (handle_shutdown ops d)
  unfolding handle_shutdown
  handle_shutdown-acts d = ground arith

  -- Any frame, malformed ones included, gets no reply or leaves the Dispatcher and its backend as
  -- they were.
  handle-RepliesOrActs :
      (d : Dispatcher M) (frame : Bytes) (clock : ℕ) → RepliesOrActs d (handle ops d frame clock)
  unfolding handle route
  handle-RepliesOrActs d frame clock =
      elim (Option-cases (succeeded (parse_helper_message frame))) [
        | inl e ↦ rw (e, handle) (inr refl)
        | inr (msg, e) ↦ rw (e, handle) (routed msg)
      ]
    where
      routed : (msg : ParsedHelperMessage) → RepliesOrActs d (route ops d msg clock)
      routed msg = ground (
        arith,
        handle_set_clipboard-acts d msg.clipboard_data clock,
        handle_announce_delayed-acts d msg.announcement clock,
        handle_provide_data-acts d msg.provide_data clock,
        handle_get_clipboard-acts d clock,
        handle_shutdown-acts d,
      )

  handle_set_clipboard-requests :
      (d : Dispatcher M) (input : Option Bytes) (clock : ℕ)
      → (handle_set_clipboard ops d input clock).0.shutdown_requests ≡ d.shutdown_requests
  unfolding handle_set_clipboard
  handle_set_clipboard-requests d input clock = ground arith

  handle_announce_delayed-requests :
      (d : Dispatcher M) (input : Option Bytes) (clock : ℕ)
      → (handle_announce_delayed ops d input clock).0.shutdown_requests ≡ d.shutdown_requests
  unfolding handle_announce_delayed
  handle_announce_delayed-requests d input clock = ground arith

  handle_provide_data-requests :
      (d : Dispatcher M) (input : Option Bytes) (clock : ℕ)
      → (handle_provide_data ops d input clock).0.shutdown_requests ≡ d.shutdown_requests
  unfolding handle_provide_data
  handle_provide_data-requests d input clock = ground arith

  handle_get_clipboard-requests :
      (d : Dispatcher M) (clock : ℕ)
      → (handle_get_clipboard ops d clock).0.shutdown_requests ≡ d.shutdown_requests
  unfolding handle_get_clipboard
  handle_get_clipboard-requests d clock = ground arith

  -- A frame that parses as a SHUTDOWN message asks for one shutdown if there is a callback; no other
  -- frame asks for any.
  pub handle-shutdown_requests :
      (d : Dispatcher M) (frame : Bytes) (clock : ℕ)
      → (handle ops d frame clock).0.shutdown_requests
        ≡ d.shutdown_requests
          + requests_of d.has_shutdown_callback (succeeded (parse_helper_message frame))
  unfolding handle
  handle-shutdown_requests d frame clock =
      elim (Option-cases (succeeded (parse_helper_message frame))) [
        | inl e ↦ rw (e, handle) (omega arith)
        | inr (msg, e) ↦ rw (e, handle) (routed msg)
      ]
    where
      routed :
          (msg : ParsedHelperMessage)
          → (route ops d msg clock).0.shutdown_requests
            ≡ d.shutdown_requests + requests_of d.has_shutdown_callback (some msg)
      routed msg =
          unfold route handle_shutdown in
          ground (
            arith,
            handle_set_clipboard-requests d msg.clipboard_data clock,
            handle_announce_delayed-requests d msg.announcement clock,
            handle_provide_data-requests d msg.provide_data clock,
            handle_get_clipboard-requests d clock,
          )
