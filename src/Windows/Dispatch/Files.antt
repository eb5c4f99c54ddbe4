-- ===== src/Windows/Dispatch/Files.antt =====
-- windows/src/dispatch.cpp: HandleFileChunkRequest and HandleFileChunkData.
use clipboard_helper.Prelude.{
  ℕ, ◌*◌, Option, none, some, Bool, true, List, [], ◌∷◌, ◌==◌, if◌then◌else◌, Bytes, is_empty,
  length, ltb, bytes_eq, text,
}
use clipboard_helper.Prelude.Parse.{Parse, parsed, malformed, stuck}
use clipboard_helper.Windows.Codec.Files.{Wide}
use clipboard_helper.Windows.Codec.Chunks.{
  encode_file_chunk_data, ParsedFileChunkRequest, parse_file_chunk_request, ParsedFileChunkData,
  parse_file_chunk_data,
}
use clipboard_helper.Windows.ChunkProvider.{deliver_chunk}
use clipboard_helper.Windows.Dispatch.{
  add_ref, release, send_frame, DiskRead, open_failed, seek_failed, read_failed, got, World,
  Dispatcher, call,
}

abbrev pub default_chunk_size : ℕ
default_chunk_size = 256 * 1024

abbrev pub max_chunk_size : ℕ
max_chunk_size = 4 * 1024 * 1024

unfoldable pub chunk_size : ℕ → ℕ
chunk_size size =
    let want = if size == 0 then default_chunk_size else size in
    if ltb max_chunk_size want then max_chunk_size else want

unfoldable pub find_id {ℓ} : {A : Type ℓ} → Bytes → List (Bytes × A) → Option A
find_id file_id [] = none
find_id file_id ((k, x) ∷ m) = if bytes_eq k file_id then some x else find_id file_id m

-- What a file_id stands for: an empty path is none.
pub data Backing : Type 0 where
  physical : Wide → Backing
  virtual : ℕ → ℕ → Backing
  unknown : Backing

unfoldable pub virtual_backing : ℕ → Option ℕ → Backing
virtual_backing object none = unknown
virtual_backing object (some lindex) = if object == 0 then unknown else virtual object lindex

unfoldable pub path_backing : Option Wide → Backing → Backing
path_backing none other = other
path_backing (some path) other = if is_empty path then unknown else physical path

unfoldable pub resolve : Bytes → Dispatcher → Backing
resolve file_id d =
    path_backing (find_id file_id d.file_paths)
      (virtual_backing d.virtual_data_object (find_id file_id d.virtual_lindex))

-- The payload of the reply: the bytes, whether they are the last ones, and the error.
abbrev pub Chunk : Type 0
Chunk = Bytes × Bool × Bytes

abbrev pub failed_chunk : Bytes → Chunk
failed_chunk error = ([], true, error)

unfoldable pub disk_chunk : ℕ → DiskRead → Chunk
disk_chunk want open_failed = failed_chunk (text "open failed")
disk_chunk want seek_failed = failed_chunk (text "seek failed")
disk_chunk want read_failed = failed_chunk (text "read failed")
disk_chunk want (got bytes) = (bytes, ltb (length bytes) want, [])

unfoldable pub virtual_chunk : Option (Bytes × Bool) → Chunk
virtual_chunk none = failed_chunk (text "virtual file read failed")
virtual_chunk (some (bytes, is_last)) = (bytes, is_last, [])

unfoldable pub chunk_of : World → Backing → ℕ → ℕ → Chunk
chunk_of w unknown offset want = failed_chunk (text "unknown file_id")
chunk_of w (virtual object lindex) offset want =
    virtual_chunk (w.read_virtual object lindex offset want)
chunk_of w (physical path) offset want = disk_chunk want (w.read_disk path offset want)

-- The object is pinned while it is read.
unfoldable pub pin : Backing → Dispatcher → Dispatcher
pin unknown d = d
pin (virtual object lindex) d = call (release object) (call (add_ref object) d)
pin (physical path) d = d

unfoldable pub reply_chunk : World → ParsedFileChunkRequest → Chunk → Dispatcher → Dispatcher
reply_chunk w req (bytes, is_last, error) d =
    call
      (send_frame
        (encode_file_chunk_data req.transfer_id req.file_id req.offset bytes is_last error w.clock))
      d

unfoldable pub serve_chunk : World → Parse ParsedFileChunkRequest → Dispatcher → Dispatcher
serve_chunk w malformed d = d
serve_chunk w stuck d = d
serve_chunk w (parsed req) d =
    let backing = resolve req.file_id d in
    reply_chunk w req (chunk_of w backing req.offset (chunk_size req.size)) (pin backing d)

unfoldable pub handle_file_chunk_request : World → Bytes → Dispatcher → Dispatcher
handle_file_chunk_request w sub_payload d = serve_chunk w (parse_file_chunk_request sub_payload) d

unfoldable pub deliver_parsed : Parse ParsedFileChunkData → Dispatcher → Dispatcher
deliver_parsed malformed d = d
deliver_parsed stuck d = d
deliver_parsed (parsed chunk) d = record d {
  provider =
      deliver_chunk chunk.transfer_id chunk.file_id chunk.offset chunk.content chunk.is_last
        chunk.error d.provider;
}

-- The provider is there from the constructor on.
unfoldable pub handle_file_chunk_data : Bytes → Dispatcher → Dispatcher
handle_file_chunk_data sub_payload d = deliver_parsed (parse_file_chunk_data sub_payload) d
