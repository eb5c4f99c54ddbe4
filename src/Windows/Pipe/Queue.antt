-- ===== src/Windows/Pipe/Queue.antt =====
-- windows/src/pipe_server.cpp: the outbound queue between the threads that send, the accept loop and the
-- writer thread. A pipe handle is a number. The server logs each frame that the writer takes from the
-- queue, with the client that it is written to; WriteFrame's result is not looked at.
use clipboard_helper.Prelude.{
  ℕ, Option, none, some, Bool, true, false, List, [], ◌∷◌, ◌++◌, if◌then◌else◌, Bytes, is_empty,
}

pub record Server : Type 0 where
  pub stop : Bool
  pub active_pipe : Option ℕ
  pub outbound : List Bytes
  pub taken : List (Option ℕ × Bytes)

abbrev pub new_server : Server
new_server = record { stop = false; active_pipe = none; outbound = []; taken = [] }

unfoldable pub enqueue_outbound : Bytes → Server → Bool × Server
enqueue_outbound payload s =
    if s.stop then (false, s) else (true, record s { outbound = s.outbound ++ payload ∷ [] })

unfoldable pub send_to : Option ℕ → Bytes → Server → Bool × Server
send_to none payload s = (false, s)
send_to (some pipe) payload s = enqueue_outbound payload s

unfoldable pub send_frame : Bytes → Server → Bool × Server
send_frame payload s = send_to s.active_pipe payload s

-- `if (!frame.empty()) (void)EnqueueOutbound(std::move(frame));` of a reply and of the first frame.
unfoldable pub enqueue_unless_empty : Bytes → Server → Bool × Server
enqueue_unless_empty frame s = if is_empty frame then (false, s) else enqueue_outbound frame s

unfoldable pub stop_server : Server → Server
stop_server s = record s { stop = true }

-- Run behind ConnectClient.
unfoldable pub connect : ℕ → Bytes → Server → Bool × Server
connect pipe initial s = enqueue_unless_empty initial (record s { active_pipe = some pipe })

-- The end of ServeOneClient.
unfoldable pub clear_active : Server → Server
clear_active s = record s { active_pipe = none }

-- The writer thread: it waits, it has ended, or it has taken a frame.
pub data Writer : Type 0 where
  waits ended took : Writer

unfoldable pub take_from : List Bytes → Server → Writer × Server
take_from [] s = (if s.stop then ended else waits, s)
take_from (frame ∷ frames) s =
    (took, record s { outbound = frames; taken = s.taken ++ (s.active_pipe, frame) ∷ [] })

-- A round of WriterThreadMain, from its wait on.
unfoldable pub writer_round : Server → Writer × Server
writer_round s = take_from s.outbound s

-- What happens to the server, in any order of the threads.
pub data Event : Type 0 where
  sends : Bytes → Event
  replies : Bytes → Event
  connects : ℕ → Bytes → Event
  disconnects : Event
  stops : Event
  writes : Event

-- Whether a frame has been accepted, and the server behind the event.
abbrev pub happen : Event → Server → Bool × Server
happen (sends frame) s = send_frame frame s
happen (replies frame) s = enqueue_unless_empty frame s
happen (connects pipe initial) s = connect pipe initial s
happen disconnects s = (false, clear_active s)
happen stops s = (false, stop_server s)
happen writes s = (false, (writer_round s).1)

abbrev pub happen_all : List Event → Server → Server
happen_all [] s = s
happen_all (e ∷ es) s = happen_all es (happen e s).1
