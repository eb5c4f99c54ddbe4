-- ===== src/Tests/Servers.antt =====
-- Witnesses for the servers and for the stream of a virtual file.
use clipboard_helper.Prelude.{
  ◌↔◌, ◌-◌, ◌^◌, ◌≡◌, ◌<◌, refl, some, true, false, List, [], ◌∷◌, ◌++◌, arith, Bytes, length, take,
  drop, is_empty, if◌then◌else◌,
}
use clipboard_helper.Prelude.Parse.{parsed}
use clipboard_helper.Linux.Socket.Worker.{worker_loop}
use clipboard_helper.Linux.Socket.Session.{replies, session, accepts, worker_loop-session}
use clipboard_helper.Linux.Manager.Stub.{StubClipboardManager, make_stub_manager, stub_manager}
use clipboard_helper.Linux.Dispatch.{Dispatcher, handle, on_connect}
use clipboard_helper.Windows.Pipe.Queue.{
  Server, new_server, Event, sends, connects, disconnects, writes, happen_all,
}
use clipboard_helper.Windows.Pipe.Order.{
  accepted, passed, rounds, to_pipe, happen_all-passed, frames_of_previous_client,
}
use clipboard_helper.Windows.Stream.{
  Stream, Fetch, back, seek_end, base_of, moved, seek, read, fetched, copy_chunk,
}
use clipboard_helper.Windows.Stream.Seeking.{Lands, seek-Lands}
use clipboard_helper.Windows.Stream.Reading.{read_all, read_all-length, read_all-file}

abbrev events : List Event
events = connects 1 (82 ∷ []) ∷ sends (1 ∷ []) ∷ writes ∷ disconnects ∷ sends (2 ∷ []) ∷ []

happen_all-passed_example :
    passed (happen_all events new_server) ≡ passed new_server ++ accepted events new_server
happen_all-passed_example = happen_all-passed events new_server

abbrev busy : Server
busy = record { stop = false; active_pipe = some 1; outbound = (5 ∷ []) ∷ []; taken = [] }

frames_of_previous_client_example :
    happen_all (disconnects ∷ connects 2 (82 ∷ []) ∷ rounds 2) busy ≡ record {
      stop = false;
      active_pipe = some 2;
      outbound = [];
      taken = to_pipe (some 2) ((5 ∷ []) ∷ (82 ∷ []) ∷ []);
    }
frames_of_previous_client_example = frames_of_previous_client busy 2 (82 ∷ []) refl refl

abbrev helper : Dispatcher StubClipboardManager
helper = record {
  clipboard = some make_stub_manager;
  has_socket = true;
  has_shutdown_callback = true;
  attached = false;
  shutdown_requests = 0;
}

abbrev handler : Bytes → Dispatcher StubClipboardManager → Dispatcher StubClipboardManager × Bytes
handler frame d = handle stub_manager d frame 7

abbrev greeting : Dispatcher StubClipboardManager → Bytes
greeting d = on_connect stub_manager d 7

abbrev requests : List Bytes
requests = (8 ∷ 6 ∷ []) ∷ (8 ∷ 5 ∷ []) ∷ []

worker_loop-session_example :
    worker_loop handler greeting true (accepts 4 []) (session handler requests) helper ≡ record {
      has_ended = true;
      disconnects = 1;
      served = record {
        is_over = true;
        state = (replies handler requests helper).0;
        frames =
            if is_empty (greeting helper)
            then (replies handler requests helper).1
            else greeting helper ∷ (replies handler requests helper).1;
      };
    }
worker_loop-session_example = worker_loop-session handler greeting 4 [] requests helper

abbrev file : Bytes
file = 10 ∷ 20 ∷ 30 ∷ []

-- A provider that sends one byte at a time.
abbrev fetch : Fetch
fetch offset want = some (take 1 (drop offset file))

abbrev stream : Stream
stream = record { size = 3; pos = 1; reading = false }

abbrev tail : Bytes
tail = 20 ∷ 30 ∷ []

read_all-length_example : length tail ≡ 3 - 1
unfolding read fetched copy_chunk
read_all-length_example = read_all-length fetch 2 3 stream tail (omega arith) refl

read_all-file_example : read_all fetch 2 3 stream ≡ parsed (drop 1 file)
read_all-file_example =
    read_all-file fetch file 2 3 stream
      (λ offset want inside asked. (1, refl, omega arith, omega arith, omega arith)) refl
      (omega arith) refl (omega arith) (omega arith)

seek-Lands_example :
    (seek (back 0) seek_end stream ≡ moved (record stream { pos = 2 }))
    ↔ (Lands 3 (back 0) 2 × (2 < 2 ^ 63))
unfolding base_of
seek-Lands_example = seek-Lands (back 0) seek_end 3 2 stream (omega arith) (omega arith) refl
