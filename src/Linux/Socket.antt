-- ===== src/Linux/Socket.antt =====
-- linux/src/socket_server.cpp: frames over the socket, a length on four bytes in little-endian
-- order and the payload. The kernel's answers to read(2) and send(2) are a list that the environment
-- chooses: an answer per call, except that a read that asks for less than has arrived leaves the rest.
pub mod Lengths
pub mod Worker
pub mod Session
pub mod Exact
pub mod Frames
use clipboard_helper.Prelude.{
  ℕ, zero, suc, ◌-◌, ◌*◌, ◌/◌, ◌%◌, ◌^◌, Bool, true, false, List, [], ◌∷◌, ◌++◌, bit_or, ltb, ◌==◌,
  if◌then◌else◌, Bytes, length, take, drop,
}
use clipboard_helper.Prelude.Parse.{Parse, parsed, malformed, stuck, ◌>>=◌}

-- `kMaxFrameSize` of socket_server.h.
abbrev pub max_frame_size : ℕ
max_frame_size = 16 * 1024 * 1024

unfoldable pub write_length_le : ℕ → Bytes
write_length_le len = len % 256 ∷ len / 2 ^ 8 % 256 ∷ len / 2 ^ 16 % 256 ∷ len / 2 ^ 24 % 256 ∷ []

-- The four bytes of the argument; a list of another length is never passed.
unfoldable pub read_length_le : Bytes → ℕ
read_length_le (b0 ∷ b1 ∷ b2 ∷ b3 ∷ _) =
    bit_or (bit_or (bit_or b0 (b1 * 2 ^ 8)) (b2 * 2 ^ 16)) (b3 * 2 ^ 24)
read_length_le _ = 0

-- What read(2) meets: bytes that have arrived, EINTR, the end of the stream, another error.
pub data Arrival : Type 0 where
  arrived : Bytes → Arrival
  interrupted : Arrival
  closed : Arrival
  failed : Arrival

-- ReadExact: the bytes, and what is left to arrive. `malformed` is `false`; `stuck` is a read that
-- blocks, since nothing more arrives. A read of 0 bytes is the end of the stream.
unfoldable pub read_exact : ℕ → List Arrival → Parse (Bytes × List Arrival)
read_exact zero es = parsed ([], es)
read_exact (suc len) [] = stuck
read_exact (suc len) (arrived [] ∷ es) = malformed
read_exact (suc len) (arrived (b ∷ s) ∷ es) =
    let more = (do (rest, es') ← read_exact (len - length s) es; parsed (b ∷ s ++ rest, es')) in
    if ltb len (length s)
    then parsed (take (suc len) (b ∷ s), arrived (drop (suc len) (b ∷ s)) ∷ es)
    else more
read_exact (suc len) (interrupted ∷ es) = read_exact (suc len) es
read_exact (suc len) (closed ∷ es) = malformed
read_exact (suc len) (failed ∷ es) = malformed

-- `can_resize` tells whether `out.resize(len)` succeeds, or throws bad_alloc.
unfoldable pub read_frame : (ℕ → Bool) → List Arrival → Parse (Bytes × List Arrival)
read_frame can_resize es = do
  (header, es') ← read_exact 4 es
  let len = read_length_le header
  if ltb max_frame_size len
      then malformed
      else if can_resize len
      then (if len == 0 then parsed ([], es') else read_exact len es')
      else malformed

-- An answer of send(2): a count of bytes taken, EINTR, another error.
pub data Sending : Type 0 where
  sent : ℕ → Sending
  again : Sending
  broken : Sending

-- The result of a write: done with the answers that are left, `false`, or a call that blocks.
pub data Written : Type 0 where
  done : List Sending → Written
  gave_up : Written
  blocked : Written

-- WriteExact: its result, and the bytes that have gone out.
unfoldable pub write_exact : Bytes → List Sending → Written × Bytes
write_exact [] es = (done es, [])
write_exact (b ∷ s) [] = (blocked, [])
write_exact (b ∷ s) (sent zero ∷ es) = (gave_up, [])
write_exact (b ∷ s) (sent (suc n) ∷ es) =
    let rest = write_exact (drop n s) es in (rest.0, b ∷ take n s ++ rest.1)
write_exact (b ∷ s) (again ∷ es) = write_exact (b ∷ s) es
write_exact (b ∷ s) (broken ∷ es) = (gave_up, [])

-- The part of WriteFrame behind the header.
unfoldable pub write_payload : Bytes → Written × Bytes → Written × Bytes
write_payload payload (done es, out) =
    let body = write_exact payload es in
    if length payload == 0 then (done es, out) else (body.0, out ++ body.1)
write_payload payload (gave_up, out) = (gave_up, out)
write_payload payload (blocked, out) = (blocked, out)

unfoldable pub write_frame : Bytes → List Sending → Written × Bytes
write_frame payload es =
    if ltb max_frame_size (length payload)
    then (gave_up, [])
    else write_payload payload (write_exact (write_length_le (length payload % 2 ^ 32)) es)
