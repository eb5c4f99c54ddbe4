-- ===== src/Windows/Access/Reads.antt =====
-- windows/src/clipboard_ops.cpp: ReadVirtualFiles, ReadClipboard and ReadVirtualFileChunk. A COM object
-- is its address, 0 the null pointer, as in the Dispatcher.
use clipboard_helper.Prelude.{
  ℕ, ◌+◌, ◌-◌, Option, none, some, Bool, true, not, ◌||◌, List, [], ◌∷◌, ltb, leb, ◌==◌,
  if◌then◌else◌, Bytes, is_empty, length, take, drop,
}
use Prim.Native.Nat.{min}
use clipboard_helper.Proto.ContentType
use clipboard_helper.Windows.Codec.Files.{Wide, VirtualFileEntry}
use clipboard_helper.Windows.Codec.Encoders.{ClipboardSnapshot}
use clipboard_helper.Windows.Dispatch.{Reading}
use clipboard_helper.Windows.Formats.{is_held}
use clipboard_helper.Windows.Formats.Dib.{BgraImage, read_clipboard_dib}
use clipboard_helper.Windows.Formats.Group.{ForeignFile, c_string, read_group}
use clipboard_helper.Windows.Access.{Answers, opens_scope}

-- What GetData and GlobalLock give for the descriptor: a failure or another medium, a block that cannot
-- be locked, or a block with the memory behind it.
pub data Descriptor : Type 0 where
  refused unlocked : Descriptor
  locked : Bytes → Bytes → Descriptor

-- What OLE answers: OleGetClipboard, `none` a failure; whether the format is registered; the descriptor.
pub record Ole : Type 0 where
  pub get_clipboard : Option ℕ
  pub registered : Bool
  pub descriptor : Descriptor

-- ReadVirtualFiles: the files, if it succeeds, and the object that it leaves in the snapshot, also where
-- it fails and ReadClipboard goes on with the same snapshot;
-- `references` is how many references to the object it has taken and not released.
pub record VirtualRead : Type 0 where
  pub files : Option (List ForeignFile)
  pub object : ℕ
  pub references : ℕ

abbrev pub no_virtual_read : VirtualRead
no_virtual_read = record { files = none; object = 0; references = 0 }

unfoldable pub read_files : ℕ → Option (List ForeignFile) → VirtualRead
read_files obj none = no_virtual_read
read_files obj (some files) = record { files = some files; object = obj; references = 1 }

unfoldable pub read_descriptor : ℕ → Descriptor → VirtualRead
unfolding read_files
read_descriptor obj refused = no_virtual_read
read_descriptor obj unlocked = no_virtual_read
read_descriptor obj (locked block beyond) = read_files obj (read_group block beyond)

unfoldable pub read_from : Ole → Option ℕ → VirtualRead
unfolding read_descriptor
read_from ole none = no_virtual_read
read_from ole (some obj) =
    if obj == 0
    then no_virtual_read
    else if ole.registered
    then read_descriptor obj ole.descriptor
    else no_virtual_read

unfoldable pub read_virtual_files : ℕ → Ole → VirtualRead
unfolding read_from
read_virtual_files held ole =
    if is_held held then no_virtual_read else read_from ole ole.get_clipboard

-- What the clipboard offers. The outer `none` is a format that is not available, the inner one a handle
-- or a lock that fails. Of each dropped file stands what DragQueryFileW gives, `[]` for nothing; of the
-- text the units from its start.
pub record Offer : Type 0 where
  pub hdrop : Option (Option (List Wide))
  pub has_descriptor : Bool
  pub ole : Ole
  pub unicode : Option (Option Wide)
  pub has_dib : Bool
  pub dibv5 : Option (Option Bytes)
  pub dib : Option (Option Bytes)

-- The loop over the dropped files.
unfoldable pub dropped : List Wide → List Wide
dropped [] = []
dropped (p ∷ paths) = let rest = dropped paths in if is_empty p then rest else p ∷ rest

unfoldable pub hdrop_paths : Option (Option (List Wide)) → List Wide
unfolding dropped
hdrop_paths none = []
hdrop_paths (some none) = []
hdrop_paths (some (some paths)) = dropped paths

abbrev pub no_snapshot : ClipboardSnapshot
no_snapshot = record {
  content_type = ContentType.unspecified;
  text = [];
  image_png = [];
  file_paths = [];
  virtual_files = [];
}

-- A snapshot without virtual files, with the object that stands in it.
abbrev pub plain_reading : ℕ → ClipboardSnapshot → Reading
plain_reading object snap = record { snapshot = snap; virtual_data_object = object; lindexes = [] }

-- The names and sizes of the entries, and their lindex.
unfoldable pub entries_of : List ForeignFile → List VirtualFileEntry
entries_of [] = []
entries_of (f ∷ files) = record { name = f.name; size = f.size } ∷ entries_of files

unfoldable pub lindexes_of : List ForeignFile → List ℕ
lindexes_of [] = []
lindexes_of (f ∷ files) = f.lindex ∷ lindexes_of files

unfoldable pub virtual_reading : ℕ → List ForeignFile → Reading
unfolding entries_of lindexes_of
virtual_reading object files = record {
  snapshot = record no_snapshot {
    content_type = ContentType.files;
    virtual_files = entries_of files;
  };
  virtual_data_object = object;
  lindexes = lindexes_of files;
}

module _ (to_png : BgraImage → Option Bytes) where
  unfoldable pub read_image : ℕ → Option BgraImage → Option Reading
  read_image object none = none
  read_image object (some img) = elim (to_png img) [
    | none ↦ none
    | some png ↦ some (
        plain_reading object
          (record no_snapshot { content_type = ContentType.image; image_png = png }))
  ]

  unfoldable pub read_bitmap : ℕ → Offer → Option Reading
  unfolding read_image
  read_bitmap object o =
      if o.has_dib then read_image object (read_clipboard_dib o.dibv5 o.dib) else none

  unfoldable pub read_text : ℕ → Option (Option Wide) → Offer → Option Reading
  unfolding read_bitmap
  read_text object none o = read_bitmap object o
  read_text object (some none) o = read_bitmap object o
  read_text object (some (some s)) o = some (
      plain_reading object
        (record no_snapshot { content_type = ContentType.text; text = c_string s }))

  unfoldable pub read_virtual : VirtualRead → Offer → Option Reading
  unfolding virtual_reading read_text
  read_virtual v o = elim v.files [
    | none ↦ read_text v.object o.unicode o
    | some files ↦ some (virtual_reading v.object files)
  ]

  -- ReadClipboard in its ClipboardScope.
  unfoldable pub read_open : ℕ → Offer → Option Reading
  unfolding read_virtual
  read_open held o =
      let paths = hdrop_paths o.hdrop in
      if not (is_empty paths)
      then some (
          plain_reading 0
            (record no_snapshot { content_type = ContentType.files; file_paths = paths }))
      else if o.has_descriptor
      then read_virtual (read_virtual_files held o.ole) o
      else read_text 0 o.unicode o

  unfoldable pub read_clipboard : Answers → Offer → Option Reading
  unfolding read_open
  read_clipboard a o = if opens_scope a then read_open a.held o else none

-- What GetData gives for the contents of a file: a failure, a stream with what Seek and Read come to, a
-- block, `none` where it cannot be locked, with its size, or another medium.
pub data Contents : Type 0 where
  no_contents other_medium seek_fails read_fails : Contents
  stream : Bytes → Contents
  unlocked_block : ℕ → Contents
  block : Bytes → Contents

unfoldable pub contents_chunk : Contents → ℕ → ℕ → Option (Bytes × Bool)
contents_chunk no_contents offset size = none
contents_chunk other_medium offset size = none
contents_chunk seek_fails offset size = none
contents_chunk read_fails offset size = none
contents_chunk (stream got) offset size = some (got, ltb (length got) size)
contents_chunk (unlocked_block total) offset size =
    if ltb offset total then none else some ([], true)
contents_chunk (block bytes) offset size =
    let total = length bytes in
    let n = min (total - offset) size in
    if ltb offset total
    then some (take n (drop offset bytes), leb total (offset + n))
    else some ([], true)

-- ReadVirtualFileChunk: the bytes and whether they are the last ones.
unfoldable pub read_virtual_file_chunk : ℕ → Bool → Contents → ℕ → ℕ → Option (Bytes × Bool)
unfolding contents_chunk
read_virtual_file_chunk data_object registered contents offset size =
    if data_object == 0 || size == 0
    then none
    else if registered
    then contents_chunk contents offset size
    else none
