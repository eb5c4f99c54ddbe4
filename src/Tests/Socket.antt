-- ===== src/Tests/Socket.antt =====
-- Witnesses and runs for the socket's frames.
use clipboard_helper.Prelude.{refl, true, [], ◌∷◌, Bytes}
use clipboard_helper.Linux.Socket.{
  write_length_le, arrived, interrupted, read_frame, sent, again, write_frame, write_payload,
  write_exact,
}
use clipboard_helper.Linux.Socket.Exact.{Reads}
use clipboard_helper.Linux.Socket.Frames.{read_frame-write_frame}

abbrev hi : Bytes
hi = b'h' ∷ b'i' ∷ []

-- The header goes out in two pieces, the payload in one; they arrive in others.
read_frame-write_frame_example :
    Reads
      (read_frame (λ n. true) (arrived (2 ∷ 0 ∷ 0 ∷ []) ∷ interrupted ∷ arrived (0 ∷ hi) ∷ []))
      hi
      []
unfolding write_frame write_payload write_exact write_length_le
read_frame-write_frame_example =
    read_frame-write_frame (λ n. true) hi [] (sent 1 ∷ again ∷ sent 3 ∷ sent 2 ∷ [])
      (arrived (2 ∷ 0 ∷ 0 ∷ []) ∷ interrupted ∷ arrived (0 ∷ hi) ∷ []) refl refl
      (tt, (tt, (tt, tt))) refl
