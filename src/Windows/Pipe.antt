-- ===== src/Windows/Pipe.antt =====
-- windows/src/pipe_server.cpp: frames over the named pipe. The answers of overlapped reads and writes are
-- a list that the environment chooses, one for each round; a read that asks for less than has arrived
-- leaves the rest. `len_le` is stored as it is, on a little-endian machine.
pub mod Agreement
pub mod Queue
pub mod Order
use clipboard_helper.Prelude.{
  ℕ, zero, suc, ◌-◌, ◌*◌, ◌%◌, ◌^◌, Option, none, some, Bool, true, false, List, [], ◌∷◌, ◌++◌, ltb,
  ◌==◌, if◌then◌else◌, Bytes, length, take, drop,
}
use clipboard_helper.Prelude.Parse.{Parse, parsed, malformed, stuck, ◌>>=◌}
use clipboard_helper.Linux.Socket.{write_length_le, read_length_le}

abbrev pub max_frame_size : ℕ
max_frame_size = 16 * 1024 * 1024

pub data WaitResult : Type 0 where
  io shutdown wait_error : WaitResult

-- A round with ReadFile or WriteFile: no event for it, an answer at once, an error that is not
-- ERROR_IO_PENDING, or a wait with the answer of GetOverlappedResult, `none` where that fails.
pub data Overlapped (A : Type 0) : Type 0 where
  no_event : Overlapped A
  at_once : A → Overlapped A
  io_error : Overlapped A
  pending : WaitResult → Option A → Overlapped A

-- What was transferred; `none` is a round that returns false.
unfoldable pub transferred : {A : Type 0} → Overlapped A → Option A
transferred no_event = none
transferred (at_once a) = some a
transferred io_error = none
transferred (pending io answer) = answer
transferred (pending shutdown answer) = none
transferred (pending wait_error answer) = none

-- A round that asks for `suc n` bytes; `more` is the loop for the bytes that remain.
unfoldable pub read_round :
    Option Bytes
    → ℕ
    → (ℕ → Parse (Bytes × List (Overlapped Bytes)))
    → List (Overlapped Bytes)
    → Parse (Bytes × List (Overlapped Bytes))
read_round none n more es = malformed
read_round (some []) n more es = malformed
read_round (some (b ∷ s)) n more es =
    if ltb n (length s)
    then parsed (take (suc n) (b ∷ s), at_once (drop (suc n) (b ∷ s)) ∷ es)
    else more (n - length s) >>= (λ (rest, es'). parsed (b ∷ s ++ rest, es'))

-- `malformed` is `false`; `stuck` is a read that blocks.
unfoldable pub read_exact_overlapped :
    ℕ → List (Overlapped Bytes) → Parse (Bytes × List (Overlapped Bytes))
read_exact_overlapped zero es = parsed ([], es)
read_exact_overlapped (suc n) [] = stuck
read_exact_overlapped (suc n) (e ∷ es) =
    read_round (transferred e) n (λ k. read_exact_overlapped k es) es

unfoldable pub read_payload : ℕ → List (Overlapped Bytes) → Parse (Bytes × List (Overlapped Bytes))
read_payload len es =
    if ltb max_frame_size len
    then malformed
    else if len == 0
    then parsed ([], es)
    else read_exact_overlapped len es

unfoldable pub read_frame : List (Overlapped Bytes) → Parse (Bytes × List (Overlapped Bytes))
read_frame es =
    read_exact_overlapped 4 es >>= (λ (header, es'). read_payload (read_length_le header) es')

-- A round that offers bytes; `more` is the loop behind the count that was written.
unfoldable pub write_round :
    Option ℕ
    → Bytes
    → (ℕ → Parse (List (Overlapped ℕ)) × Bytes)
    → Parse (List (Overlapped ℕ)) × Bytes
write_round none s more = (malformed, [])
write_round (some zero) s more = (malformed, [])
write_round (some (suc n)) s more = ((more (suc n)).0, take (suc n) s ++ (more (suc n)).1)

-- The result, with the answers that are left, and the bytes that have gone out.
unfoldable pub write_exact_overlapped :
    Bytes → List (Overlapped ℕ) → Parse (List (Overlapped ℕ)) × Bytes
write_exact_overlapped [] es = (parsed es, [])
write_exact_overlapped (b ∷ s) [] = (stuck, [])
write_exact_overlapped (b ∷ s) (e ∷ es) =
    write_round (transferred e) (b ∷ s) (λ n. write_exact_overlapped (drop n (b ∷ s)) es)

unfoldable pub write_payload :
    Bytes → Parse (List (Overlapped ℕ)) × Bytes → Parse (List (Overlapped ℕ)) × Bytes
write_payload payload (parsed es, out) =
    let body = write_exact_overlapped payload es in
    if length payload == 0 then (parsed es, out) else (body.0, out ++ body.1)
write_payload payload (malformed, out) = (malformed, out)
write_payload payload (stuck, out) = (stuck, out)

unfoldable pub write_frame : Bytes → List (Overlapped ℕ) → Parse (List (Overlapped ℕ)) × Bytes
write_frame payload es =
    if ltb max_frame_size (length payload)
    then (malformed, [])
    else write_payload payload
        (write_exact_overlapped (write_length_le (length payload % 2 ^ 32)) es)
