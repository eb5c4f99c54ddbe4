-- ===== src/Linux/Socket/Session.antt =====
-- linux/src/socket_server.cpp: what WorkerLoop does with a client, and how it ends.
use clipboard_helper.Prelude.{
  not, ◌&&◌, ℕ, ◌≡◌, refl, none, some, Bool, true, false, List, [], ◌∷◌, if◌then◌else◌, Bytes,
  is_empty, arith, Bool-cases, inl, inr,
}
use clipboard_helper.Linux.Socket.Worker.{
  Accept, client, accept_interrupted, Accepted, blocked, left, served, accept_answer, accept_loop,
  Round, add_frame, greet, answer_round, read_round, serve_loop, serve_accepted, worker_loop,
}

-- The parent's view of a session: each frame is handled once, in order, and the replies that are not
-- empty come back in their order.
module _ {S : Type 0} (handler : Bytes → S → S × Bytes) where
  abbrev pub replies : List Bytes → S → S × List Bytes
  replies [] s = (s, [])
  replies (frame ∷ frames) s =
      let (s', reply) = handler frame s in
      let (s'', more) = replies frames s' in (s'', if is_empty reply then more else reply ∷ more)

  -- The rounds of a client that sends these frames and goes, over a server that is not stopping and
  -- whose writes succeed.
  abbrev pub session : List Bytes → List Round
  session [] = record { stopping = false; frame = none; written = true } ∷ []
  session (frame ∷ frames) =
      record { stopping = false; frame = some frame; written = true } ∷ session frames

  serve_loop-session :
      (frames : List Bytes) (s : S)
      → serve_loop handler (session frames) s
        ≡ record { is_over = true; state = (replies frames s).0; frames = (replies frames s).1 }
  unfolding serve_loop read_round answer_round add_frame
  serve_loop-session [] s = refl
  serve_loop-session (frame ∷ frames) s = elim (Bool-cases (is_empty (handler frame s).1)) [
    | inl e ↦ rw (e, serve_loop-session frames (handler frame s).0) refl
    | inr e ↦ rw (e, serve_loop-session frames (handler frame s).0) refl
  ]

-- Calls of accept4 that are interrupted, and then a client.
abbrev pub accepts : ℕ → List (Bool × Accept × Bool) → List (Bool × Accept × Bool)
accepts fd [] = (false, client fd, false) ∷ []
accepts fd (x ∷ interruptions) = (false, accept_interrupted, false) ∷ accepts fd interruptions

-- A failure of accept4 behind Stop.
abbrev pub stopped_in_accept : Accepted → Bool
stopped_in_accept blocked = false
stopped_in_accept (left fire) = not fire
stopped_in_accept (served fd) = false

accept_loop-client :
    (fd : ℕ) (interruptions : List (Bool × Accept × Bool))
    → accept_loop (accepts fd interruptions) ≡ served fd
unfolding accept_loop accept_answer
accept_loop-client fd [] = refl
accept_loop-client fd (x ∷ interruptions) = accept_loop-client fd interruptions

module _ {S : Type 0} (handler : Bytes → S → S × Bytes) (on_connect : S → Bytes) where
  -- A listening server that is not stopping, interrupted calls of accept4 and then a client that sends
  -- frames and goes, while the server's writes succeed: the greeting, if it is not empty, and the
  -- replies that are not empty are written in their order, each frame is handled once, and the worker
  -- ends with one call of on_disconnect.
  pub worker_loop-session :
      (fd : ℕ) (interruptions : List (Bool × Accept × Bool)) (frames : List Bytes) (s : S)
      → worker_loop handler on_connect true (accepts fd interruptions) (session handler frames) s
        ≡ record {
          has_ended = true;
          disconnects = 1;
          served = record {
            is_over = true;
            state = (replies handler frames s).0;
            frames =
                if is_empty (on_connect s)
                then (replies handler frames s).1
                else on_connect s ∷ (replies handler frames s).1;
          };
        }
  unfolding worker_loop serve_accepted greet add_frame
  worker_loop-session fd interruptions frames s =
      rw (accept_loop-client fd interruptions, serve_loop-session handler frames s)
        (elim (Bool-cases (is_empty (on_connect s))) [ inl e ↦ rw e refl | inr e ↦ rw e refl ])

  -- Whatever accept4 and the client do: on_disconnect has been called once if the worker has ended, but
  -- for a failure of accept4 behind Stop, and not at all otherwise.
  pub worker_loop-disconnects :
      (listening : Bool) (attempts : List (Bool × Accept × Bool)) (rounds : List Round) (s : S)
      → (worker_loop handler on_connect listening attempts rounds s).disconnects ≡ (
          if (worker_loop handler on_connect listening attempts rounds s).has_ended
            && not (listening && stopped_in_accept (accept_loop attempts))
          then 1
          else 0)
  unfolding worker_loop
  worker_loop-disconnects false attempts rounds s = refl
  worker_loop-disconnects true attempts rounds s = ends (accept_loop attempts)
    where
      ends :
          (a : Accepted)
          → (serve_accepted handler on_connect a rounds s).disconnects ≡ (
              if (serve_accepted handler on_connect a rounds s).has_ended
                && not (true && stopped_in_accept a)
              then 1
              else 0)
      ends blocked = unfold serve_accepted in refl
      ends (left true) = unfold serve_accepted in refl
      ends (left false) = unfold serve_accepted in refl
      ends (served fd) = unfold serve_accepted in ground arith
