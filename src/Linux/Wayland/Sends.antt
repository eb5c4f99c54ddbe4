-- ===== src/Linux/Wayland/Sends.antt =====
-- linux/src/clipboard_manager_wayland.cpp: what a paste is given. A worker's wait ends when its
-- predicate holds or at the timeout, and wait_for returns the predicate. What is written to the fd is
-- given by the bytes; an empty write is `[]`. libwebp's decoder and QImage's encoder are parameters.
use clipboard_helper.Prelude.{
  ℕ, zero, suc, Option, none, some, Bool, true, false, ◌&&◌, ◌||◌, List, [], ◌∷◌, ◌++◌,
  if◌then◌else◌, Bytes, is_empty, take, drop, bytes_eq,
}
use clipboard_helper.Linux.Manager.{Callback, pushed}
use clipboard_helper.Linux.UriList.{format_for_mime}
use clipboard_helper.Linux.Wayland.{
  ContentKind, text, image, files, WlrState, png_mime, bmp_mime, x_bmp_mime,
}

pub data ImageFormat : Type 0 where
  png bmp : ImageFormat

unfoldable pub image_format : Bytes → Option ImageFormat
image_format mime =
    if bytes_eq mime png_mime
    then some png
    else if bytes_eq mime bmp_mime || bytes_eq mime x_bmp_mime
    then some bmp
    else none

-- `some bytes` are the pending bytes for a hash, `none` that there are none.
unfoldable pub pending_for : WlrState → Bytes → Option Bytes
pending_for s hash = elim s.pending_data [
  | none ↦ none
  | some bytes ↦ if bytes_eq s.pending_data_hash hash then some bytes else none
]

abbrev pub is_some {ℓ} : {A : Type ℓ} → Option A → Bool
is_some none = false
is_some (some a) = true

pub data Outcome : Type 0 where
  stopping stale timeout wrote : Outcome

-- The predicate of the wait; `stop` is the value that it loads.
unfoldable pub wait_predicate : Bool → WlrState → Bytes → Bool
wait_predicate stop s hash = stop || is_some (pending_for s hash)

-- The chain of tests behind the wait.
unfoldable pub outcome_of : Bool → WlrState → Bytes → Outcome
outcome_of got_signal s hash =
    if s.stop
    then stopping
    else if got_signal && is_some (pending_for s hash)
    then wrote
    else if got_signal
    then stale
    else timeout

-- The end of a wait in a state: `stop_seen` is the value that the predicate loaded, and `none` is a
-- worker that waits on, before the timeout.
unfoldable pub end_wait : Bool → Bool → WlrState → Bytes → Option Outcome
end_wait timed_out stop_seen s hash =
    let got_signal = wait_predicate stop_seen s hash in
    if got_signal || timed_out then some (outcome_of got_signal s hash) else none

-- What OnSourceSend does with the fd.
pub data Send : Type 0 where
  served : Bytes → Send
  waits : Bytes → Option Bytes → Send

module _ {I : Type 0} (decode_webp : Bytes → Option I) (save : I → ImageFormat → Option Bytes) where
  unfoldable pub convert_image_for_mime : Bytes → Bytes → Bytes
  convert_image_for_mime webp_bytes mime =
      if is_empty webp_bytes then [] else elim (decode_webp webp_bytes) [
        | none ↦ []
        | some img ↦ elim (image_format mime) [
          | none ↦ []
          | some fmt ↦ elim (save img fmt) [ none ↦ [] | some out ↦ out ]
        ]
      ]

  -- The bytes of a kind, as the MIME type wants them.
  unfoldable pub materialise : ContentKind → Bytes → Bytes → Bytes
  materialise image bytes mime = convert_image_for_mime bytes mime
  materialise files bytes mime = format_for_mime bytes mime
  materialise text bytes mime = bytes

  -- The bytes of a request, if it has some, as its MIME type wants them.
  unfoldable pub written_of : Option Bytes → ContentKind → Bytes → Bytes
  written_of none kind mime = []
  written_of (some bytes) kind mime = materialise kind bytes mime

  -- What a worker writes for an outcome.
  unfoldable pub write_outcome : Outcome → WlrState → Bytes → Bytes → Bytes
  write_outcome wrote s hash mime = written_of (pending_for s hash) s.content_kind mime
  write_outcome stopping s hash mime = []
  write_outcome stale s hash mime = []
  write_outcome timeout s hash mime = []

  unfoldable pub write_ended : Option Outcome → WlrState → Bytes → Bytes → Option Bytes
  write_ended none s hash mime = none
  write_ended (some o) s hash mime = some (write_outcome o s hash mime)

  -- WaitAndWriteOnWorker in the state where its wait ends.
  unfoldable pub wait_and_write : Bool → Bool → WlrState → Bytes → Bytes → Option Bytes
  wait_and_write timed_out stop_seen s hash mime =
      write_ended (end_wait timed_out stop_seen s hash) s hash mime

  -- The bytes written at once, or a worker that waits for the hash, behind the request callback's
  -- frame.
  unfoldable pub send_of : Option Bytes → ContentKind → Bytes → Callback → ℕ → Bytes → Send
  send_of (some bytes) kind key request clock mime = served (materialise kind bytes mime)
  send_of none kind key request clock mime = waits key (pushed request clock key)

  unfoldable pub on_source_send : ℕ → WlrState → Bytes → Send
  on_source_send clock s mime =
      send_of (pending_for s s.current_hash) s.content_kind s.current_hash s.on_request clock mime

-- An answer of write(2), or of poll(2) behind EAGAIN.
pub data Answer : Type 0 where
  wrote_bytes : ℕ → Answer
  eintr : Answer
  again_writable : Answer
  again_blocked : Answer
  write_error : Answer

-- WriteAll over the answers: whether it succeeds, and the bytes that have gone out. With no answer
-- left the call blocks, and has not succeeded yet.
unfoldable pub write_all : Bytes → List Answer → Bool × Bytes
write_all [] es = (true, [])
write_all (b ∷ s) [] = (false, [])
write_all (b ∷ s) (wrote_bytes zero ∷ es) = (false, [])
write_all (b ∷ s) (wrote_bytes (suc n) ∷ es) =
    let rest = write_all (drop n s) es in (rest.0, b ∷ take n s ++ rest.1)
write_all (b ∷ s) (eintr ∷ es) = write_all (b ∷ s) es
write_all (b ∷ s) (again_writable ∷ es) = write_all (b ∷ s) es
write_all (b ∷ s) (again_blocked ∷ es) = (false, [])
write_all (b ∷ s) (write_error ∷ es) = (false, [])
