-- ===== src/Linux/Wayland/Receive.antt =====
-- linux/src/clipboard_manager_wayland.cpp: the text that a worker takes from another client's pipe.
use clipboard_helper.Prelude.{
  ℕ, zero, suc, ◌-◌, ◌≡◌, refl, some, true, false, List, [], ◌∷◌, ◌++◌, arith, ◌==◌, Bytes, All,
  length, take,
}
use clipboard_helper.Linux.Manager.{pushed}
use clipboard_helper.Linux.Socket.{Arrival, arrived, interrupted, closed, failed}
use clipboard_helper.Linux.Socket.Exact.{stream, IsOpen}
use clipboard_helper.Linux.Wayland.{WlrState}
use clipboard_helper.Linux.Wayland.Offers.{drain_fd, receive_cap, dispatch_text, drain_and_dispatch}

take_more : (n : ℕ) (xs ys : Bytes) → take n (xs ++ ys) ≡ take n xs ++ take (n - length xs) ys
take_more zero [] ys = ground arith
take_more (suc n) [] ys = ground arith
take_more zero (x ∷ xs) ys = ground arith
take_more (suc n) (x ∷ xs) ys =
    let less : suc n - suc (length xs) ≡ n - length xs = omega arith in
    rw (less, take_more n xs ys) refl

drain_fd-zero : (es : List Arrival) → drain_fd 0 es ≡ (true, [])
unfolding drain_fd
drain_fd-zero [] = refl
drain_fd-zero (arrived [] ∷ es) = refl
drain_fd-zero (arrived (b ∷ s) ∷ es) = refl
drain_fd-zero (interrupted ∷ es) = refl
drain_fd-zero (closed ∷ es) = refl
drain_fd-zero (failed ∷ es) = refl

-- What an offering client writes before it closes the pipe, in any pieces and up to the cap.
pub drain_fd-stream :
    (cap : ℕ) (es : List Arrival)
    → All IsOpen es
    → drain_fd cap (es ++ closed ∷ []) ≡ (true, take cap (stream es))
unfolding drain_fd
drain_fd-stream zero es up = drain_fd-zero (es ++ closed ∷ [])
drain_fd-stream (suc room) [] up = refl
drain_fd-stream (suc room) (arrived [] ∷ es) up = absurd up.0
drain_fd-stream (suc room) (arrived (b ∷ s) ∷ es) up =
    let less : suc room - suc (length s) ≡ room - length s = omega arith in
    let more : (suc room == 0) ≡ false = ground arith in
    rw (less, more, drain_fd-stream (room - length s) es up.1, take_more room s (stream es)) refl
drain_fd-stream (suc room) (interrupted ∷ es) up =
    let more : (suc room == 0) ≡ false = ground arith in
    rw (more, drain_fd-stream (suc room) es up.1) refl
drain_fd-stream (suc room) (closed ∷ es) up = absurd up.0
drain_fd-stream (suc room) (failed ∷ es) up = absurd up.0

-- A client writes some bytes in any pieces and closes the pipe, while the manager is not stopping: the
-- first 16 MiB of them become the cached text, and are what the changed callback is called with.
pub drain_and_dispatch-stream :
    (clock : ℕ) (es : List Arrival) (s : WlrState)
    → All IsOpen es
    → s.stop ≡ false
    → drain_and_dispatch clock (es ++ closed ∷ []) s ≡ (
      record s { cached_clipboard_text = some (take receive_cap (stream es)) },
      pushed s.on_changed clock (take receive_cap (stream es)),
    )
unfolding drain_and_dispatch dispatch_text
drain_and_dispatch-stream clock es s live up = rw (drain_fd-stream receive_cap es live, up) refl
