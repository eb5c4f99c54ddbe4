-- ===== src/Linux/Socket/Worker.antt =====
-- linux/src/socket_server.cpp: WorkerLoop, with the values that it loads of `stop_`, the answers of
-- accept4 and the results of ReadFrame and WriteFrame as lists. The handler and the greeting act on a
-- state, that of the Dispatcher.
use clipboard_helper.Prelude.{
  ℕ, Option, none, some, Bool, true, false, not, List, [], ◌∷◌, if◌then◌else◌, Bytes, is_empty,
}

pub data Accept : Type 0 where
  client : ℕ → Accept
  accept_interrupted : Accept
  accept_failed : Accept

-- The loop up to a client: `stop_` at its head, the answer of accept4, and `stop_` behind a failure.
pub data Accepted : Type 0 where
  blocked : Accepted
  left : Bool → Accepted
  served : ℕ → Accepted

unfoldable pub accept_answer : Accept → Bool → Accepted → Accepted
accept_answer (client fd) stopping more = served fd
accept_answer accept_interrupted stopping more = more
accept_answer accept_failed stopping more = left (not stopping)

-- `left fire` is a loop that has ended, with `fire_disconnect`.
unfoldable pub accept_loop : List (Bool × Accept × Bool) → Accepted
accept_loop [] = blocked
accept_loop ((stopping, answer, stopping') ∷ rounds) =
    let more = accept_loop rounds in
    if stopping then left true else accept_answer answer stopping' more

-- A round with a client: `stop_` at its head, the frame that ReadFrame returns, and whether WriteFrame
-- of the reply succeeds.
pub record Round : Type 0 where
  pub stopping : Bool
  pub frame : Option Bytes
  pub written : Bool

-- Whether the loop has ended, the state, and the frames that WriteFrame was given.
pub record Served (S : Type 0) : Type 0 where
  pub is_over : Bool
  pub state : S
  pub frames : List Bytes

unfoldable pub add_frame : {S : Type 0} → Bytes → Served S → Served S
add_frame reply r = record r { frames = reply ∷ r.frames }

-- The greeting is written whatever the result of WriteFrame is.
unfoldable pub greet : {S : Type 0} → Bytes → Served S → Served S
greet greeting r = if is_empty greeting then r else add_frame greeting r

-- Behind the handler: `more` is the loop behind this round.
unfoldable pub answer_round : {S : Type 0} → Bool → S × Bytes → (S → Served S) → Served S
answer_round written (s, reply) more =
    if is_empty reply
    then more s
    else add_frame reply
        (if written then more s else record { is_over = true; state = s; frames = [] })

module _ {S : Type 0} (handler : Bytes → S → S × Bytes) where
  unfoldable pub read_round : Option Bytes → Bool → S → (S → Served S) → Served S
  read_round none written s more = record { is_over = true; state = s; frames = [] }
  read_round (some frame) written s more = answer_round written (handler frame s) more

  unfoldable pub serve_loop : List Round → S → Served S
  serve_loop [] s = record { is_over = false; state = s; frames = [] }
  serve_loop (r ∷ rounds) s =
      let next = read_round r.frame r.written s (λ s'. serve_loop rounds s') in
      if r.stopping then record { is_over = true; state = s; frames = [] } else next

-- What WorkerLoop has come to: `disconnects` counts the calls of `on_disconnect_`.
pub record Worker (S : Type 0) : Type 0 where
  pub has_ended : Bool
  pub disconnects : ℕ
  pub served : Served S

module _ {S : Type 0} (handler : Bytes → S → S × Bytes) (on_connect : S → Bytes) where
  unfoldable pub serve_accepted : Accepted → List Round → S → Worker S
  serve_accepted blocked rounds s = record {
    has_ended = false;
    disconnects = 0;
    served = record { is_over = false; state = s; frames = [] };
  }
  serve_accepted (left fire) rounds s = record {
    has_ended = true;
    disconnects = if fire then 1 else 0;
    served = record { is_over = false; state = s; frames = [] };
  }
  serve_accepted (served fd) rounds s =
      let r = greet (on_connect s) (serve_loop handler rounds s) in
      record { has_ended = r.is_over; disconnects = if r.is_over then 1 else 0; served = r }

  -- `listening` is whether listen_fd_ is there.
  unfoldable pub worker_loop : Bool → List (Bool × Accept × Bool) → List Round → S → Worker S
  worker_loop listening attempts rounds s =
      if listening then serve_accepted (accept_loop attempts) rounds s else record {
        has_ended = true;
        disconnects = 1;
        served = record { is_over = false; state = s; frames = [] };
      }
