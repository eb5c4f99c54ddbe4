-- ===== src/Windows/Pipe/Agreement.antt =====
-- windows/src/pipe_server.cpp against linux/src/socket_server.cpp: the two framings.
use clipboard_helper.Prelude.{
  ℕ, zero, suc, ◌-◌, ◌%◌, ◌^◌, ◌≡◌, refl, sym, inl, inr, Option, none, some, true, List, [], ◌∷◌,
  ◌++◌, ltb, ◌==◌, if◌then◌else◌, Bytes, length, take, drop, Bool-cases,
}
use clipboard_helper.Prelude.Parse.{Parse, parsed, malformed, stuck, ◌>>=◌}
use clipboard_helper.Linux.Socket
use clipboard_helper.Linux.Socket.{
  Arrival, arrived, failed, Sending, sent, broken, Written, done, gave_up, blocked, write_length_le,
  read_length_le,
}
use clipboard_helper.Windows.Pipe.{
  max_frame_size, Overlapped, transferred, read_round, read_exact_overlapped, read_payload,
  read_frame, write_round, write_exact_overlapped, write_payload, write_frame,
}

-- An answer on the pipe as one on the socket.
abbrev arrival_of : Option Bytes → Arrival
arrival_of none = failed
arrival_of (some s) = arrived s

abbrev pub as_arrivals : List (Overlapped Bytes) → List Arrival
as_arrivals [] = []
as_arrivals (e ∷ es) = arrival_of (transferred e) ∷ as_arrivals es

abbrev pub as_read : Parse (Bytes × List (Overlapped Bytes)) → Parse (Bytes × List Arrival)
as_read (parsed (s, es)) = parsed (s, as_arrivals es)
as_read malformed = malformed
as_read stuck = stuck

prepend-as_read :
    (s : Bytes) (m : Parse (Bytes × List (Overlapped Bytes)))
    → (as_read m >>= (λ (rest, es'). parsed (s ++ rest, es')))
      ≡ as_read (m >>= (λ (rest, es'). parsed (s ++ rest, es')))
prepend-as_read s (parsed (rest, es)) = refl
prepend-as_read s malformed = refl
prepend-as_read s stuck = refl

read_round-agrees :
    (t : Option Bytes) (n : ℕ) (es : List (Overlapped Bytes))
    → ((k : ℕ) → Socket.read_exact k (as_arrivals es) ≡ as_read (read_exact_overlapped k es))
    → Socket.read_exact (suc n) (arrival_of t ∷ as_arrivals es)
      ≡ as_read (read_round t n (λ k. read_exact_overlapped k es) es)
unfolding Socket.read_exact read_round transferred
read_round-agrees none n es more = refl
read_round-agrees (some []) n es more = refl
read_round-agrees (some (b ∷ s)) n es more = elim (Bool-cases (ltb n (length s))) [
  | inl short ↦ rw short refl
  | inr long ↦
      rw (long, more (n - length s))
        (prepend-as_read (b ∷ s) (read_exact_overlapped (n - length s) es))
]

read_exact-agrees :
    (n : ℕ) (es : List (Overlapped Bytes))
    → Socket.read_exact n (as_arrivals es) ≡ as_read (read_exact_overlapped n es)
unfolding Socket.read_exact read_exact_overlapped
read_exact-agrees zero es = refl
read_exact-agrees (suc n) [] = refl
read_exact-agrees (suc n) (e ∷ es) =
    read_round-agrees (transferred e) n es (λ k. read_exact-agrees k es)

read_payload-agrees :
    (len : ℕ) (es : List (Overlapped Bytes))
    → (if ltb Socket.max_frame_size len
        then malformed
        else if len == 0
        then parsed ([], as_arrivals es)
        else Socket.read_exact len (as_arrivals es))
      ≡ as_read (read_payload len es)
unfolding read_payload
read_payload-agrees len es = elim (Bool-cases (ltb max_frame_size len)) [
  | inl big ↦ rw big refl
  | inr fits ↦ elim (Bool-cases (len == 0)) [
    | inl empty ↦ rw (fits, empty) refl
    | inr full ↦ rw (fits, full) (read_exact-agrees len es)
  ]
]

-- ReadFrame of the pipe server on any answers of overlapped reads gives what ReadFrame of the socket
-- server gives on the same answers of read(2), if its buffer can always be allocated: the same
-- payload, the same failures, and the same answers left.
pub read_frame-agrees :
    (es : List (Overlapped Bytes))
    → Socket.read_frame (λ n. true) (as_arrivals es) ≡ as_read (read_frame es)
unfolding Socket.read_frame read_frame
read_frame-agrees es = rw (read_exact-agrees 4 es) (behind_header (read_exact_overlapped 4 es))
  where
    behind_header :
        (m : Parse (Bytes × List (Overlapped Bytes)))
        → (as_read m >>= (λ (header, es').
            let len = read_length_le header in
            if ltb Socket.max_frame_size len
            then malformed
            else if true
            then (if len == 0 then parsed ([], es') else Socket.read_exact len es')
            else malformed))
          ≡ as_read (m >>= (λ (header, es'). read_payload (read_length_le header) es'))
    behind_header (parsed (header, es')) = read_payload-agrees (read_length_le header) es'
    behind_header malformed = refl
    behind_header stuck = refl

-- The same of writes.
abbrev sending_of : Option ℕ → Sending
sending_of none = broken
sending_of (some n) = sent n

abbrev pub as_sendings : List (Overlapped ℕ) → List Sending
as_sendings [] = []
as_sendings (e ∷ es) = sending_of (transferred e) ∷ as_sendings es

abbrev pub as_written : Parse (List (Overlapped ℕ)) × Bytes → Written × Bytes
as_written (parsed es, out) = (done (as_sendings es), out)
as_written (malformed, out) = (gave_up, out)
as_written (stuck, out) = (blocked, out)

as_written-out :
    (r : Parse (List (Overlapped ℕ)) × Bytes) (s : Bytes)
    → as_written (r.0, s ++ r.1) ≡ ((as_written r).0, s ++ (as_written r).1)
as_written-out (parsed es, out) s = refl
as_written-out (malformed, out) s = refl
as_written-out (stuck, out) s = refl

write_round-agrees :
    (t : Option ℕ) (b : ℕ) (s : Bytes) (es : List (Overlapped ℕ))
    → ((n : ℕ)
        → Socket.write_exact (drop n s) (as_sendings es)
          ≡ as_written (write_exact_overlapped (drop n s) es))
    → Socket.write_exact (b ∷ s) (sending_of t ∷ as_sendings es)
      ≡ as_written (write_round t (b ∷ s) (λ n. write_exact_overlapped (drop n (b ∷ s)) es))
unfolding Socket.write_exact write_round
write_round-agrees none b s es more = refl
write_round-agrees (some zero) b s es more = refl
write_round-agrees (some (suc n)) b s es more =
    rw (more n) (sym (as_written-out (write_exact_overlapped (drop n s) es) (b ∷ take n s)))

write_exact-agrees :
    (s : Bytes) (es : List (Overlapped ℕ))
    → Socket.write_exact s (as_sendings es) ≡ as_written (write_exact_overlapped s es)
unfolding Socket.write_exact write_exact_overlapped
write_exact-agrees [] es = refl
write_exact-agrees (b ∷ s) [] = refl
write_exact-agrees (b ∷ s) (e ∷ es) =
    write_round-agrees (transferred e) b s es (λ n. write_exact-agrees (drop n s) es)

write_payload-agrees :
    (payload : Bytes) (w : Parse (List (Overlapped ℕ)) × Bytes)
    → Socket.write_payload payload (as_written w) ≡ as_written (write_payload payload w)
unfolding Socket.write_payload write_payload
write_payload-agrees payload (parsed es, out) = elim (Bool-cases (length payload == 0)) [
  | inl empty ↦ rw empty refl
  | inr full ↦
      rw (full, write_exact-agrees payload es)
        (sym (as_written-out (write_exact_overlapped payload es) out))
]
write_payload-agrees payload (malformed, out) = refl
write_payload-agrees payload (stuck, out) = refl

-- WriteFrame of the pipe server on any answers of overlapped writes does what WriteFrame of the socket
-- server does on the same answers of send(2): the same bytes go out, with the same result.
pub write_frame-agrees :
    (payload : Bytes) (es : List (Overlapped ℕ))
    → Socket.write_frame payload (as_sendings es) ≡ as_written (write_frame payload es)
unfolding Socket.write_frame write_frame
write_frame-agrees payload es = elim (Bool-cases (ltb max_frame_size (length payload))) [
  | inl big ↦ rw big refl
  | inr fits ↦
      let header = write_length_le (length payload % 2 ^ 32) in
      rw (fits, write_exact-agrees header es)
        (write_payload-agrees payload (write_exact_overlapped header es))
]
