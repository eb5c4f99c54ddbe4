-- ===== src/Windows/Pipe/Order.antt =====
-- windows/src/pipe_server.cpp: the frames that are accepted, against those that reach the writer.
use clipboard_helper.Prelude.{
  ℕ, zero, suc, ◌≡◌, refl, sym, ap, ◌∙◌, Option, none, some, Bool, true, false, List, [], ◌∷◌, ◌++◌,
  append_assoc, append-nil, arith, if◌then◌else◌, Bytes, is_empty, length, if-cases,
}
use clipboard_helper.Windows.Pipe.Queue.{
  Server, enqueue_outbound, send_to, send_frame, enqueue_unless_empty, stop_server, connect,
  clear_active, ended, take_from, writer_round, Event, sends, replies, connects, disconnects, stops,
  writes, happen, happen_all,
}

-- The frame that an event brings.
abbrev pub frame_of : Event → Bytes
frame_of (sends frame) = frame
frame_of (replies frame) = frame
frame_of (connects pipe initial) = initial
frame_of disconnects = []
frame_of stops = []
frame_of writes = []

-- The frames that are accepted, in their order.
abbrev pub accepted : List Event → Server → List Bytes
accepted [] s = []
accepted (e ∷ es) s =
    if (happen e s).0 then frame_of e ∷ accepted es (happen e s).1 else accepted es (happen e s).1

-- The frames that have been through the queue or are in it.
abbrev pub frames : List (Option ℕ × Bytes) → List Bytes
frames [] = []
frames ((pipe, frame) ∷ log) = frame ∷ frames log

abbrev pub passed : Server → List Bytes
passed s = frames s.taken ++ s.outbound

frames-append : (xs ys : List (Option ℕ × Bytes)) → frames (xs ++ ys) ≡ frames xs ++ frames ys
frames-append [] ys = refl
frames-append ((pipe, frame) ∷ xs) ys = ap (λ t. frame ∷ t) (frames-append xs ys)

-- What an event that accepts `frame`, or none, does to the frames.
abbrev Adds : Server → Bytes → Bool × Server → Type 0
Adds s frame (true, s') = passed s' ≡ passed s ++ frame ∷ []
Adds s frame (false, s') = passed s' ≡ passed s

enqueue_outbound-Adds : (frame : Bytes) (s : Server) → Adds s frame (enqueue_outbound frame s)
unfolding enqueue_outbound
enqueue_outbound-Adds frame s =
    if-cases (Adds s frame) s.stop (λ e. refl)
      (λ e. sym (append_assoc (frames s.taken) s.outbound (frame ∷ [])))

enqueue_unless_empty-Adds :
    (frame : Bytes) (s : Server) → Adds s frame (enqueue_unless_empty frame s)
unfolding enqueue_unless_empty
enqueue_unless_empty-Adds frame s =
    if-cases (Adds s frame) (is_empty frame) (λ e. refl) (λ e. enqueue_outbound-Adds frame s)

send_to-Adds : (pipe : Option ℕ) (frame : Bytes) (s : Server) → Adds s frame (send_to pipe frame s)
unfolding send_to
send_to-Adds none frame s = refl
send_to-Adds (some pipe) frame s = enqueue_outbound-Adds frame s

writer_round-passed : (s : Server) → passed (writer_round s).1 ≡ passed s
unfolding writer_round take_from
writer_round-passed s = go s.outbound refl
  where
    go : (q : List Bytes) → s.outbound ≡ q → passed (take_from q s).1 ≡ passed s
    go [] e = unfold take_from in refl
    go (frame ∷ q) e =
        unfold take_from in
        rw (frames-append s.taken ((s.active_pipe, frame) ∷ []), e)
          (append_assoc (frames s.taken) (frame ∷ []) q)

happen-Adds : (e : Event) (s : Server) → Adds s (frame_of e) (happen e s)
unfolding send_frame connect clear_active stop_server
happen-Adds (sends frame) s = send_to-Adds s.active_pipe frame s
happen-Adds (replies frame) s = enqueue_unless_empty-Adds frame s
happen-Adds (connects pipe initial) s =
    enqueue_unless_empty-Adds initial (record s { active_pipe = some pipe })
happen-Adds disconnects s = refl
happen-Adds stops s = refl
happen-Adds writes s = writer_round-passed s

-- Any events in any order, from any state of the server: the frames that the writer has taken, and
-- behind them those that still wait, are those at the start and then the accepted ones, each once and
-- in the order in which they were accepted.
pub happen_all-passed :
    (es : List Event) (s : Server) → passed (happen_all es s) ≡ passed s ++ accepted es s
happen_all-passed [] s = sym (append-nil (passed s))
happen_all-passed (e ∷ es) s =
    happen_all-passed es (happen e s).1
    ∙ step (happen e s) (happen-Adds e s) (accepted es (happen e s).1)
  where
    step :
        (r : Bool × Server)
        → Adds s (frame_of e) r
        → (rest : List Bytes)
        → passed r.1 ++ rest ≡ passed s ++ (if r.0 then frame_of e ∷ rest else rest)
    step (true, s') h rest = rw h (append_assoc (passed s) (frame_of e ∷ []) rest)
    step (false, s') h rest = rw h refl

abbrev pub rounds : ℕ → List Event
rounds zero = []
rounds (suc n) = writes ∷ rounds n

abbrev pub to_pipe : Option ℕ → List Bytes → List (Option ℕ × Bytes)
to_pipe pipe [] = []
to_pipe pipe (frame ∷ q) = (pipe, frame) ∷ to_pipe pipe q

-- The writer takes the whole queue in as many rounds as it has frames, all for the current client.
drained :
    (q : List Bytes) (stop : Bool) (pipe : Option ℕ) (log : List (Option ℕ × Bytes))
    → happen_all
        (rounds (length q))
        (record { stop = stop; active_pipe = pipe; outbound = q; taken = log })
      ≡ record { stop = stop; active_pipe = pipe; outbound = []; taken = log ++ to_pipe pipe q }
unfolding writer_round take_from
drained [] stop pipe log = rw (append-nil log) refl
drained (frame ∷ q) stop pipe log =
    rw (sym (append_assoc log ((pipe, frame) ∷ []) (to_pipe pipe q)))
      (drained q stop pipe (log ++ (pipe, frame) ∷ []))

connected :
    (s : Server) (pipe : ℕ) (initial : Bytes)
    → s.stop ≡ false
    → is_empty initial ≡ false
    → (connect pipe initial (clear_active s)).1 ≡ record {
      stop = false;
      active_pipe = some pipe;
      outbound = s.outbound ++ initial ∷ [];
      taken = s.taken;
    }
unfolding clear_active connect enqueue_unless_empty enqueue_outbound
connected s pipe initial up first = rw (first, up) refl

-- While the server is not stopping, a client leaves and another connects with a first frame that is not
-- empty: the frames that still waited for the client that left are written to the new one, ahead of
-- that first frame.
pub frames_of_previous_client :
    (s : Server) (pipe : ℕ) (initial : Bytes)
    → s.stop ≡ false
    → is_empty initial ≡ false
    → happen_all
        (disconnects ∷ connects pipe initial ∷ rounds (length (s.outbound ++ initial ∷ [])))
        s
      ≡ record {
        stop = false;
        active_pipe = some pipe;
        outbound = [];
        taken = s.taken ++ to_pipe (some pipe) (s.outbound ++ initial ∷ []);
      }
frames_of_previous_client s pipe initial up first =
    ap (happen_all (rounds (length (s.outbound ++ initial ∷ []))))
      (connected s pipe initial up first)
    ∙ drained (s.outbound ++ initial ∷ []) false (some pipe) s.taken

-- Once the server is stopping: nothing is accepted, the writer takes the frames that wait, and ends
-- behind the last of them.
pub writer-ends :
    (s : Server)
    → s.stop ≡ true
    → ((frame : Bytes) → send_frame frame s ≡ (false, s))
      × ((writer_round (happen_all (rounds (length s.outbound)) s)).0 ≡ ended)
      × ((happen_all (rounds (length s.outbound)) s).taken
          ≡ s.taken ++ to_pipe s.active_pipe s.outbound)
unfolding send_frame enqueue_outbound writer_round take_from
writer-ends s down =
    let e = drained s.outbound s.stop s.active_pipe s.taken in
    (λ frame. refused s.active_pipe frame, rw (e, down) refl, rw e refl)
  where
    refused : (pipe : Option ℕ) (frame : Bytes) → send_to pipe frame s ≡ (false, s)
    refused none frame = unfold send_to in refl
    refused (some pipe) frame =
        unfold send_to enqueue_outbound in
        if-cases (λ r. r ≡ (false, s)) s.stop (λ e. refl) (λ up. absurd (ground arith))
