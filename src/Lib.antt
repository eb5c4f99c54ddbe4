-- ===== src/Lib.antt =====
-- The clipboard helper: a process between a parent (the remote desktop client) and the clipboard of
-- the system. The parent sends HelperMessage frames over a socket (linux/src) or a pipe
-- (windows/src); the helper applies them to the clipboard, and pushes frames when the clipboard
-- changes or when a paste needs announced data.
--
-- The files and the code that they are about:
--   Prelude            shared helpers: byte lists, Boolean tests, bit fields, results of parsers.
--   Wire               linux/src/proto_wire.cpp and .h (windows/src has the same text): the
--                      protobuf Writer and Reader. A method of the Writer is the bytes that it
--                      appends; the Reader is the bytes that are left. Wire/Entries and
--                      Wire/Written hold the abstract view, a message as the list of its fields.
--   Proto              linux/src/helper_proto.h (windows/src for the chunk messages): constants.
--   Linux/Codec        linux/src/dispatch_codec.cpp: the encoders and parsers.
--   Linux/Manager      linux/src/clipboard_manager.h: the backend interface, a record of operations
--                      on a state of the backend's own; Linux/Manager/Stub is the stub manager.
--   Linux/Dispatch     linux/src/dispatch.cpp: the Dispatcher over any backend. A method returns the
--                      new state and the reply.
--   Linux/Wayland      linux/src/clipboard_manager_wayland.cpp (clipboard_manager_ext.cpp is the same
--                      text over another protocol): the shared state and the manager as a backend;
--                      Sends holds what a paste is given, Offers the offers of other clients, and
--                      Selection their life under the events of the device.
--   Linux/X11          linux/src/clipboard_manager_x11.cpp: Delayed holds DelayedState and the object that
--                      waits for its data, X11 the manager with its tasks, Changes the slot for
--                      dataChanged; Events are the steps of the manager and its environment.
--   Linux/Socket       linux/src/socket_server.cpp: the framing, over any answers of read(2) and
--                      send(2); Worker is the loop that serves one client.
--   Linux/UriList      linux/src/uri_list_format.cpp: the formats of copied files.
--   Linux/Backend      linux/src/backend_detector.cpp: the choice of a backend by the environment.
--   Linux/Echo         linux/src/echo_suppressor.cpp: the helper's own clipboard changes.
--   Linux/Watchdog     linux/src/parent_watchdog.cpp: the callback on the parent's death.
--   Windows/Codec      windows/src/dispatch_codec.cpp: the encoders and parsers.
--   Windows/Render     windows/src/dispatch.cpp: delayed rendering, from the announcement to the bytes
--                      of WM_RENDERFORMAT, as steps that interleave.
--   Windows/Dispatch   windows/src/dispatch.cpp: the Dispatcher; Files holds the requests for chunks,
--                      Announce the announcements, Handle the frames, Owner the clipboard's changes.
--   Windows/WorkQueue  windows/src/work_queue.cpp: tasks for the thread that drains.
--   Windows/ChunkProvider  windows/src/dispatch.cpp, DispatcherChunkProvider: the requests for chunks of
--                      files that wait for the parent.
--   Windows/Formats    windows/src/clipboard_format.cpp: the payloads; Dib and Group are their readers in
--                      windows/src/clipboard_ops.cpp, and Layout little-endian memory.
--   Windows/Access     windows/src/clipboard_ops.cpp: the functions that write, advertise and render,
--                      over any answers of Win32; Reads holds ReadClipboard and what it calls.
--   Windows/Sta        windows/src/sta_worker.cpp: the messages of the STA thread; Lifecycle its start
--                      and end, Cached its renders with the Dispatcher's callback.
--   Windows/Pipe       windows/src/pipe_server.cpp: the framing over overlapped I/O, and in Queue the
--                      outbound queue with its threads.
--   Windows/Stream     windows/src/virtual_file_provider.cpp, VirtualFileStream: the IStream that a paste
--                      of remote files reads.
--   Windows/DataObject windows/src/virtual_file_provider.cpp, VirtualFileEnum and
--                      VirtualClipboardDataObject: what a paste asks the object of remote files for.
--   Tests              witnesses at concrete inputs.
--
-- A string, a vector of bytes and a range given by a pointer and a length are lists of numbers; an
-- integer of w bits is a number with its wrap-around written out. A parser's `false` is
-- `malformed`; `stuck` stands for a loop out of fuel, or for a read that blocks.
--
-- Fuel: WriteVarint has nine rounds before the last byte, which is enough for 64 bits; a parser's
-- loop has the length of its input, each round takes a byte at least. `std::to_string` of 32 bits
-- has ten digits at most, of 64 bits twenty. A pull of a file, a consumer of a stream and CopyTo
-- have their rounds as an argument.
--
-- Parameters: the clock, by the value that it returns; the backend; the answers of the kernel;
-- whether a buffer can be allocated; libwebp's decoder and QImage's encoder; on Windows a World with
-- the conversions of wide strings, the files, OLE and the results of the calls that the Dispatcher
-- logs. Not modelled: logging, start-up, the calls of the display protocols, image conversion,
-- threads and locks (each critical section is one step), the set-up of socket and pipe, the COM
-- objects of Windows but for the data object, its enumerator and the stream, and the Swift helper.
-- The World of the Dispatcher has ReadClipboard by its result, whose contract, as clipboard_ops.h states
-- it, is the hypothesis IsWorld; Windows/Access/Contract relates it to the code. On Windows an `int` and
-- a LONG are their 32 bits, and `wchar_t` has 16.
pub mod Prelude
pub mod Wire
pub mod Proto
pub mod Linux
pub mod Windows
pub mod Tests
