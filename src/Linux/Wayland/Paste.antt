-- ===== src/Linux/Wayland/Paste.antt =====
-- linux/src/clipboard_manager_wayland.cpp: OnSourceSend and the worker against the slot.
use clipboard_helper.Prelude.{
  ℕ, ◌≡◌, ◌≢◌, refl, sym, ◌∙◌, ap, inl, inr, Option, none, some, Bool, true, false, List, [], arith,
  if◌then◌else◌, Bytes, bytes_eq, bytes_eq_iff, bytes_eq_refl, Option-cases,
}
use clipboard_helper.Linux.Manager.{Callback, pushed}
use clipboard_helper.Linux.Wayland.{
  ContentKind, text, image, files, WlrState, new_state, set_announced, set_provided,
}
use clipboard_helper.Linux.Wayland.Sends.{
  ImageFormat, pending_for, stale, timeout, wrote, wait_predicate, outcome_of, end_wait, Send,
  served, waits, convert_image_for_mime, materialise, written_of, write_outcome, write_ended,
  wait_and_write, send_of, on_source_send,
}
use clipboard_helper.Linux.UriList.{format_for_mime}
use clipboard_helper.Linux.Wayland.Slot.{
  Slot, view, Operation, run, specify_all, IsConsistent, run-IsConsistent, run-view,
  pending_for-current, pending_for-eq-some,
}

-- No wait ends as `stale`, whatever the state is, if `stop` is never reset.
pub end_wait-ne-stale :
    (timed_out stop_seen : Bool) (s : WlrState) (hash : Bytes)
    → (stop_seen ≡ true → s.stop ≡ true)
    → end_wait timed_out stop_seen s hash ≢ some stale
unfolding end_wait wait_predicate outcome_of
end_wait-ne-stale timed_out stop_seen s hash kept = ground arith

wrote-pending_for :
    (timed_out stop_seen : Bool) (s : WlrState) (hash : Bytes)
    → end_wait timed_out stop_seen s hash ≡ some wrote
    → pending_for s hash ≢ none
unfolding end_wait wait_predicate outcome_of
wrote-pending_for timed_out stop_seen s hash h e = ground arith

-- Announcing empties the slot, whatever the hash.
pending_for-announced :
    (kind : ContentKind) (hash key : Bytes) (s : WlrState)
    → pending_for (set_announced kind hash s) key ≡ none
unfolding pending_for set_announced
pending_for-announced kind hash key s = refl

provided-announced :
    (kind : ContentKind) (hash bytes : Bytes) (s : WlrState)
    → set_provided hash bytes (set_announced kind hash s)
      ≡ record (set_announced kind hash s) { pending_data = some bytes; pending_data_hash = hash }
unfolding set_provided set_announced
provided-announced kind hash bytes s = rw (bytes_eq_refl hash) refl

pending_for-provided :
    (hash bytes : Bytes) (s : WlrState)
    → pending_for (record s { pending_data = some bytes; pending_data_hash = hash }) hash
      ≡ some bytes
unfolding pending_for
pending_for-provided hash bytes s = rw (bytes_eq_refl hash) refl

-- Data for another hash than the announced one is dropped.
discarded :
    (kind : ContentKind) (key hash bytes : Bytes) (s : WlrState)
    → key ≢ hash
    → set_provided hash bytes (set_announced kind key s) ≡ set_announced kind key s
unfolding set_provided set_announced
discarded kind key hash bytes s other =
    let differs : bytes_eq key hash ≡ false = ground (arith, bytes_eq_iff key hash) in
    rw differs refl

-- While nothing is pending for a hash and the manager is not stopping, a wait for it ends by the
-- timeout only.
end_wait-pending :
    (timed_out : Bool) (s : WlrState) (hash : Bytes)
    → s.stop ≡ false
    → pending_for s hash ≡ none
    → end_wait timed_out false s hash ≡ (if timed_out then some timeout else none)
unfolding end_wait wait_predicate outcome_of
end_wait-pending timed_out s hash up e = ground arith

end_wait-wrote :
    (timed_out : Bool) (s : WlrState) (hash bytes : Bytes)
    → s.stop ≡ false
    → pending_for s hash ≡ some bytes
    → end_wait timed_out false s hash ≡ some wrote
unfolding end_wait wait_predicate outcome_of
end_wait-wrote timed_out s hash bytes up e = ground arith

module _ {I : Type 0} (decode : Bytes → Option I) (save : I → ImageFormat → Option Bytes) where
  -- The specification of a paste, by what the slot has and its kind.
  abbrev pub paste_of : Option Bytes → ContentKind → Bytes → Callback → ℕ → Bytes → Send
  paste_of none kind key request clock mime = waits key (pushed request clock key)
  paste_of (some bytes) text key request clock mime = served bytes
  paste_of (some bytes) files key request clock mime = served (format_for_mime bytes mime)
  paste_of (some bytes) image key request clock mime =
      served (convert_image_for_mime decode save bytes mime)

  send_of-paste_of :
      (content : Option Bytes) (kind : ContentKind) (key : Bytes) (request : Callback) (clock : ℕ)
      (mime : Bytes)
      → send_of decode save content kind key request clock mime
        ≡ paste_of content kind key request clock mime
  unfolding send_of materialise
  send_of-paste_of none kind key request clock mime = refl
  send_of-paste_of (some bytes) text key request clock mime = refl
  send_of-paste_of (some bytes) files key request clock mime = refl
  send_of-paste_of (some bytes) image key request clock mime = refl

  -- Behind any operations on a new manager: a paste is served the slot's content at once, text as it is,
  -- files by the formatter and an image by the converter of the MIME type; without content, the data is
  -- requested and a worker waits, both under the slot's key.
  pub send-Slot :
      (ops : List Operation) (clock : ℕ) (mime : Bytes)
      → let slot = specify_all ops (view new_state) in
        on_source_send decode save clock (run ops new_state) mime
        ≡ paste_of slot.content slot.kind slot.key (run ops new_state).on_request clock mime
  unfolding on_source_send
  send-Slot ops clock mime =
      let s = run ops new_state in
      let taken : Slot → Send =
        λ slot. paste_of slot.content slot.kind slot.key s.on_request clock mime in
      rw (pending_for-current s (run-IsConsistent ops new_state tt)) (
        send_of-paste_of s.pending_data s.content_kind s.current_hash s.on_request clock mime
        ∙ ap taken (run-view ops new_state))

  worker-writes :
      (timed_out stop_seen : Bool) (s : WlrState) (hash mime bytes : Bytes)
      → end_wait timed_out stop_seen s hash ≡ some wrote
      → pending_for s hash ≡ some bytes
      → wait_and_write decode save timed_out stop_seen s hash mime
        ≡ some (materialise decode save s.content_kind bytes mime)
  unfolding wait_and_write write_ended write_outcome written_of
  worker-writes timed_out stop_seen s hash mime bytes h e = rw (h, e) refl

  -- Behind any operations on a new manager: a worker that ends as `wrote` waited for the slot's key,
  -- and writes the slot's content as the slot's kind wants it.
  pub worker-Slot :
      (ops : List Operation) (timed_out stop_seen : Bool) (hash mime : Bytes)
      → end_wait timed_out stop_seen (run ops new_state) hash ≡ some wrote
      → (bytes : Bytes) × ((specify_all ops (view new_state)).key ≡ hash)
        × ((specify_all ops (view new_state)).content ≡ some bytes)
        × (wait_and_write decode save timed_out stop_seen (run ops new_state) hash mime
            ≡ some (materialise decode save (specify_all ops (view new_state)).kind bytes mime))
  worker-Slot ops timed_out stop_seen hash mime h =
      rw (sym (run-view ops new_state))
        (worker (run ops new_state) (run-IsConsistent ops new_state tt) h)
    where
      worker :
          (s : WlrState)
          → IsConsistent s
          → end_wait timed_out stop_seen s hash ≡ some wrote
          → (bytes : Bytes) × (s.current_hash ≡ hash)
            × (s.pending_data ≡ some bytes)
            × (wait_and_write decode save timed_out stop_seen s hash mime
                ≡ some (materialise decode save s.content_kind bytes mime))
      worker s c h = elim (Option-cases (pending_for s hash)) [
        | inl none_for ↦ absurd (wrote-pending_for timed_out stop_seen s hash h none_for)
        | inr (bytes, e) ↦
            let (key, content) = pending_for-eq-some s hash bytes c e in
            (bytes, key, content, worker-writes timed_out stop_seen s hash mime bytes h e)
      ]

  announced-asks :
      (clock : ℕ) (kind : ContentKind) (hash mime : Bytes) (s : WlrState)
      → on_source_send decode save clock (set_announced kind hash s) mime
        ≡ waits hash (pushed s.on_request clock hash)
  unfolding on_source_send send_of set_announced pending_for
  announced-asks clock kind hash mime s = refl

  -- Announced data, while the manager is not stopping: a paste requests it and waits for its hash, the
  -- worker waits on until the timeout, and behind ProvideData with the hash it writes the provided
  -- bytes as the announced kind wants them.
  pub announced_paste :
      (kind : ContentKind) (hash bytes mime : Bytes) (clock : ℕ) (s : WlrState)
      → s.stop ≡ false
      → (on_source_send decode save clock (set_announced kind hash s) mime
          ≡ waits hash (pushed s.on_request clock hash))
        × (end_wait false false (set_announced kind hash s) hash ≡ none)
        × (wait_and_write decode save false false
              (set_provided hash bytes (set_announced kind hash s))
              hash
              mime
            ≡ some (materialise decode save kind bytes mime))
  unfolding on_source_send send_of set_announced
  announced_paste kind hash bytes mime clock s up =
      let asked = set_announced kind hash s in
      let answered : WlrState = record asked {
        pending_data = some bytes;
        pending_data_hash = hash;
      } in
      let e = pending_for-provided hash bytes asked in
      (
        announced-asks clock kind hash mime s,
        end_wait-pending false asked hash up (pending_for-announced kind hash hash s),
        rw (provided-announced kind hash bytes s) (
            worker-writes false false answered hash mime bytes
              (end_wait-wrote false answered hash bytes up e) e),
      )

  -- A superseded paste, while the manager is not stopping: data for the old hash is discarded, the
  -- worker is not ended by the new announcement, and it ends with nothing written at the timeout.
  pub superseded_paste :
      (kind kind' : ContentKind) (hash hash' bytes mime : Bytes) (s : WlrState)
      → s.stop ≡ false
      → hash' ≢ hash
      → (set_provided hash bytes (set_announced kind' hash' (set_announced kind hash s))
          ≡ set_announced kind' hash' (set_announced kind hash s))
        × (end_wait false false (set_announced kind' hash' (set_announced kind hash s)) hash ≡ none)
        × (wait_and_write decode save true false
              (set_announced kind' hash' (set_announced kind hash s))
              hash
              mime
            ≡ some [])
  unfolding wait_and_write write_ended write_outcome set_announced
  superseded_paste kind kind' hash hash' bytes mime s up other =
      let now = set_announced kind' hash' (set_announced kind hash s) in
      let gone = pending_for-announced kind' hash' hash (set_announced kind hash s) in
      (
        discarded kind' hash' hash bytes (set_announced kind hash s) other,
        end_wait-pending false now hash up gone,
        rw (end_wait-pending true now hash up gone) refl,
      )
