-- ===== src/Linux/Socket/Frames.antt =====
-- linux/src/socket_server.cpp: WriteFrame against ReadFrame.
use clipboard_helper.Prelude.{
  ℕ, suc, ◌%◌, ◌^◌, ◌≤◌, ◌<◌, ◌≡◌, refl, sym, ap, ◌∙◌, inl, inr, Bool, true, false, List, [], ◌∷◌,
  ◌++◌, append_assoc, arith, ltb, ltb→le, le→ltb, lt→ltb, append-nil, ◌==◌, if◌then◌else◌,
  Bool-cases, Bytes, All, length,
}
use clipboard_helper.Prelude.Parse.{parsed, malformed}
use clipboard_helper.Linux.Socket.{
  max_frame_size, write_length_le, Arrival, read_exact, read_frame, Sending, Written, done, gave_up,
  blocked, write_exact, write_payload, write_frame,
}
use clipboard_helper.Linux.Socket.Lengths.{read_length_le-write_length_le}
use clipboard_helper.Linux.Socket.Exact.{
  stream, IsOpen, Reads, read_exact-stream, is_done, write_exact-done,
}

nonzero : (n : ℕ) → (suc n == 0) ≡ false
nonzero n = ground arith

behind :
    (payload : Bytes) (w : Written × Bytes)
    → is_done (write_payload payload w).0 ≡ true
    → (is_done w.0 ≡ true) × ((write_payload payload w).1 ≡ w.1 ++ payload)
unfolding write_payload write_exact
behind [] (done es, out) h = (refl, sym (append-nil out))
behind (b ∷ s) (done es, out) h =
    rw (nonzero (length s))
      (refl, ap (λ t. out ++ t) (write_exact-done (b ∷ s) es (rw (nonzero (length s)) at h)))
behind payload (gave_up, out) h = cc
behind payload (blocked, out) h = cc

four : (len : ℕ) → length (write_length_le len) ≡ 4
unfolding write_length_le
four len = refl

-- A frame that was written: it fits, and the length and the payload have gone out.
write_frame-done :
    (payload : Bytes) (answers : List Sending)
    → is_done (write_frame payload answers).0 ≡ true
    → (length payload ≤ max_frame_size)
      × ((write_frame payload answers).1 ≡ write_length_le (length payload) ++ payload)
unfolding write_frame
write_frame-done payload answers h = elim (Bool-cases (ltb max_frame_size (length payload))) [
  | inl big ↦ cc (rw big at h)
  | inr fits ↦
      let le = ltb→le max_frame_size (length payload) fits in
      let same : length payload % 2 ^ 32 ≡ length payload = omega arith in
      (le, rw (fits, same) (sent_on payload (length payload) (rw (fits, same) at h)))
]
  where
    sent_on :
        (payload : Bytes) (len : ℕ)
        → is_done (write_payload payload (write_exact (write_length_le len) answers)).0 ≡ true
        → (write_payload payload (write_exact (write_length_le len) answers)).1
          ≡ write_length_le len ++ payload
    sent_on payload len h =
        let (header, out) = behind payload (write_exact (write_length_le len) answers) h in
        out ∙ ap (λ t. t ++ payload) (write_exact-done (write_length_le len) answers header)

-- For a payload whose WriteFrame ends well, under any answers of send(2), and a connection that
-- stays up and carries those bytes and then `more`, in any pieces: if the buffer can be allocated,
-- ReadFrame returns the payload, and leaves a connection that stays up and carries `more`.
pub read_frame-write_frame :
    (can_resize : ℕ → Bool) (payload more : Bytes) (answers : List Sending) (es : List Arrival)
    → is_done (write_frame payload answers).0 ≡ true
    → can_resize (length payload) ≡ true
    → All IsOpen es
    → stream es ≡ (write_frame payload answers).1 ++ more
    → Reads (read_frame can_resize es) payload more
read_frame-write_frame can_resize payload more answers es written room live h =
    let (fits, out) = write_frame-done payload answers written in
    let carried : stream es ≡ write_length_le (length payload) ++ (payload ++ more) =
      h ∙ ap (λ t. t ++ more) out ∙ append_assoc (write_length_le (length payload)) payload more in
    let (es', reads, rest, live') =
      read_exact-stream (write_length_le (length payload)) (payload ++ more) es live carried in
    framed can_resize payload more es es' fits room reads live' rest
  where
    body :
        (can_resize : ℕ → Bool) (payload more : Bytes) (es : List Arrival)
        → All IsOpen es
        → stream es ≡ payload ++ more
        → Reads
            (if length payload == 0 then parsed ([], es) else read_exact (length payload) es)
            payload
            more
    body can_resize [] more es live h = (es, refl, h, live)
    body can_resize (b ∷ s) more es live h =
        rw (nonzero (length s)) (read_exact-stream (b ∷ s) more es live h)

    framed :
        (can_resize : ℕ → Bool) (payload more : Bytes) (es es' : List Arrival)
        → length payload ≤ max_frame_size
        → can_resize (length payload) ≡ true
        → read_exact (length (write_length_le (length payload))) es
          ≡ parsed (write_length_le (length payload), es')
        → All IsOpen es'
        → stream es' ≡ payload ++ more
        → Reads (read_frame can_resize es) payload more
    framed can_resize payload more es es' fits room reads live h =
        let header : read_exact 4 es ≡ parsed (write_length_le (length payload), es') =
          (rw (four (length payload)) at reads) in
        unfold read_frame in
        rw
          (
            header,
            read_length_le-write_length_le (length payload) (omega arith),
            le→ltb max_frame_size (length payload) fits,
            room,
          )
          (body can_resize payload more es' live h)

-- A length above the cap, on a connection that stays up: ReadFrame fails, whatever follows the
-- length and in whatever pieces it arrives.
pub oversized_frame :
    (can_resize : ℕ → Bool) (len : ℕ) (more : Bytes) (es : List Arrival)
    → max_frame_size < len
    → len < 2 ^ 32
    → All IsOpen es
    → stream es ≡ write_length_le len ++ more
    → read_frame can_resize es ≡ malformed
oversized_frame can_resize len more es big word live h =
    let (es', reads, rest, live') = read_exact-stream (write_length_le len) more es live h in
    let header : read_exact 4 es ≡ parsed (write_length_le len, es') =
      unfold write_length_le in reads in
    unfold read_frame in
    rw (header, read_length_le-write_length_le len word, lt→ltb max_frame_size len big)
