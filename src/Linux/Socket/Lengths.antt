-- ===== src/Linux/Socket/Lengths.antt =====
-- linux/src/socket_server.cpp: WriteLengthLE against ReadLengthLE.
use clipboard_helper.Prelude.{ℕ, ◌*◌, ◌+◌, ◌/◌, ◌%◌, ◌^◌, ◌<◌, ◌≡◌, arith, bit_or_disjoint}
use clipboard_helper.Linux.Socket.{write_length_le, read_length_le}

-- ReadLengthLE reads every 32-bit length that WriteLengthLE writes.
pub read_length_le-write_length_le :
    (len : ℕ) → len < 2 ^ 32 → read_length_le (write_length_le len) ≡ len
unfolding write_length_le read_length_le
read_length_le-write_length_le len h =
    let b0 = len % 256 in
    let b1 = len / 2 ^ 8 % 256 in
    let b2 = len / 2 ^ 16 % 256 in
    let b3 = len / 2 ^ 24 % 256 in
    rw
      (
        bit_or_disjoint 8 b0 b1 (omega arith),
        bit_or_disjoint 16 (b0 + b1 * 2 ^ 8) b2 (omega arith),
        bit_or_disjoint 24 (b0 + b1 * 2 ^ 8 + b2 * 2 ^ 16) b3 (omega arith),
      )
      (omega arith)
