-- ===== src/Windows/Dispatch.antt =====
-- windows/src/dispatch.cpp and dispatch.h: the Dispatcher. Win32, OLE, the STA worker and the pipe are
-- outside: the Dispatcher logs what it calls, the last call first, and a World answers. A COM object
-- is a number, 0 the null pointer.
pub mod Files
pub mod Announce
pub mod Handle
pub mod Owner
pub mod Transfer
pub mod Ids
pub mod References
pub mod Balance
pub mod Releases
use clipboard_helper.Prelude.{
  ℕ, ◌+◌, Option, none, some, Bool, List, [], ◌∷◌, ◌==◌, if◌then◌else◌, Bytes,
}
use clipboard_helper.Windows.Codec.Files.{Wide, to_string_loop, VirtualFileSpec}
use clipboard_helper.Windows.Codec.Encoders.{ClipboardSnapshot}
use clipboard_helper.Windows.ChunkProvider.{Provider}
use clipboard_helper.Windows.Render.{RenderState}

-- The calls that act outside. `take` is an object that ReadClipboard hands over, and `create` one from
-- CreateVirtualClipboardDataObject.
pub data Call : Type 0 where
  write_text : Wide → Call
  write_image : Bytes → Call
  write_files : List Wide → Call
  advertise : ℕ → Call
  take : ℕ → Call
  create : ℕ → List VirtualFileSpec → Bytes → Call
  publish : ℕ → Call
  add_ref : ℕ → Call
  release : ℕ → Call
  clear_clipboard : Call
  send_frame : Bytes → Call
  stop_pipe : Call

-- Reading a file: what CreateFileW, SetFilePointerEx and ReadFile come to.
pub data DiskRead : Type 0 where
  open_failed seek_failed read_failed : DiskRead
  got : Bytes → DiskRead

-- What ReadClipboard fills in, with the IDataObject and the lindex of each virtual file.
pub record Reading : Type 0 where
  pub snapshot : ClipboardSnapshot
  pub virtual_data_object : ℕ
  pub lindexes : List ℕ

-- The answers from outside, at one call of a handler.
pub record World : Type 0 where
  pub utf8_to_wide : Bytes → Wide
  pub wide_to_utf8 : Wide → Bytes
  pub get_file_attributes : Wide → Option (ℕ × ℕ)
  pub clock : ℕ
  pub succeeds : Call → Bool
  pub read_clipboard : Option Reading
  pub new_object : ℕ
  pub is_current_clipboard : ℕ → Bool
  pub owner_is_us : Bool
  pub has_owner : Bool
  pub read_disk : Wide → ℕ → ℕ → DiskRead
  pub read_virtual : ℕ → ℕ → ℕ → ℕ → Option (Bytes × Bool)

pub record Dispatcher : Type 0 where
  pub render : RenderState
  pub provider : Provider
  pub file_paths : List (Bytes × Wide)
  pub virtual_data_object : ℕ
  pub virtual_lindex : List (Bytes × ℕ)
  pub outbound_data_object : ℕ
  pub calls : List Call

unfoldable pub call : Call → Dispatcher → Dispatcher
call c d = record d { calls = c ∷ d.calls }

-- `if (p) p->Release();`
unfoldable pub release_object : ℕ → Dispatcher → Dispatcher
release_object object d = if object == 0 then d else call (release object) d

-- `for (i = 0; i < xs.size(); ++i) map[std::to_string(i)] = xs[i];` of an empty map.
unfoldable pub by_index {ℓ} : {A : Type ℓ} → ℕ → List A → List (Bytes × A)
by_index i [] = []
by_index i (x ∷ xs) = (to_string_loop 19 i, x) ∷ by_index (i + 1) xs

unfoldable pub update_file_paths : List Wide → Dispatcher → Dispatcher
update_file_paths paths d = record (release_object d.virtual_data_object d) {
  file_paths = by_index 0 paths;
  virtual_data_object = 0;
  virtual_lindex = [];
}

unfoldable pub update_virtual_files : ℕ → List ℕ → Dispatcher → Dispatcher
update_virtual_files data_object lindex_by_id d = record (release_object d.virtual_data_object d) {
  file_paths = [];
  virtual_data_object = data_object;
  virtual_lindex = by_index 0 lindex_by_id;
}
