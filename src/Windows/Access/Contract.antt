-- ===== src/Windows/Access/Contract.antt =====
-- windows/src/clipboard_ops.cpp and dispatch.cpp: ReadClipboard against what clipboard_ops.h promises to
-- the Dispatcher, an IDataObject only where there are virtual files.
use clipboard_helper.Prelude.{
  ℕ, ◌+◌, ◌≡◌, ◌≢◌, refl, Option, none, some, true, false, not, List, [], ◌∷◌, ◌==◌, ◌⊎◌, inl,
  if-cases, arith, Bytes, is_empty,
}
use clipboard_helper.Proto.ContentType
use clipboard_helper.Windows.Codec.Files.{Wide}
use clipboard_helper.Windows.Dispatch.{Reading, World, Dispatcher, call, take, update_file_paths}
use clipboard_helper.Windows.Dispatch.References.{
  IsReading, IsBalanced, gained, lost, held, release_object-lost,
}
use clipboard_helper.Windows.Formats.{is_held}
use clipboard_helper.Windows.Formats.Layout.{read_le32}
use clipboard_helper.Windows.Dispatch.Handle.{
  handle_get_clipboard, get_reading, update_files, update_tables, take_object,
}
use clipboard_helper.Windows.Formats.Dib.{BgraImage, read_clipboard_dib}
use clipboard_helper.Windows.Formats.Group.{ForeignFile, read_group, read_slots}
use clipboard_helper.Windows.Access.{Answers, opens_scope}
use clipboard_helper.Windows.Access.Reads.{
  locked, VirtualRead, read_files, read_descriptor, read_from, read_virtual_files, Offer,
  hdrop_paths, plain_reading, no_snapshot, entries_of, virtual_reading, read_image, read_bitmap,
  read_text, read_virtual, read_open, read_clipboard,
}
use clipboard_helper.Windows.Access.Virtual.{
  IsCounted, read_virtual_files-IsCounted, LeavesNone, read_virtual_files-LeavesNone,
}

-- The object of a reading, if there is one, is that of ReadVirtualFiles, with the one reference that it
-- has taken.
abbrev pub Owns : VirtualRead → Reading → Type 0
Owns v r = (r.virtual_data_object ≡ 0) ⊎ ((r.virtual_data_object ≡ v.object) × (v.references ≡ 1))

abbrev Keeps : VirtualRead → Option Reading → Type 0
Keeps v none = Unit
Keeps v (some r) = IsReading r × Owns v r

module _ (to_png : BgraImage → Option Bytes) (v : VirtualRead) where
  image-Keeps :
      (object : ℕ) (img : Option BgraImage) → object ≡ 0 → Keeps v (read_image to_png object img)
  unfolding read_image
  image-Keeps object none e = tt
  image-Keeps object (some img) e = png (to_png img)
    where
      png :
          (o : Option Bytes)
          → Keeps v (elim o [
            | none ↦ none
            | some p ↦ some (
                plain_reading object
                  (record no_snapshot { content_type = ContentType.image; image_png = p }))
          ])
      png none = tt
      png (some p) = (λ n. absurd (n e), inl e)

  bitmap-Keeps : (object : ℕ) (o : Offer) → object ≡ 0 → Keeps v (read_bitmap to_png object o)
  unfolding read_bitmap
  bitmap-Keeps object o e =
      if-cases (Keeps v) o.has_dib (λ _. image-Keeps object (read_clipboard_dib o.dibv5 o.dib) e)
        (λ _. tt)

  text-Keeps :
      (object : ℕ) (t : Option (Option Wide)) (o : Offer)
      → object ≡ 0
      → Keeps v (read_text to_png object t o)
  unfolding read_text
  text-Keeps object (some (some s)) o e = (λ n. absurd (n e), inl e)
  text-Keeps object (some none) o e = bitmap-Keeps object o e
  text-Keeps object none o e = bitmap-Keeps object o e

virtual-Owns :
    (v : VirtualRead) (files : List ForeignFile)
    → IsCounted v
    → Owns v (virtual_reading v.object files)
unfolding virtual_reading
virtual-Owns v files counted = ground arith

module _ (to_png : BgraImage → Option Bytes) where
  virtual-Keeps :
      (v : VirtualRead) (o : Offer)
      → IsCounted v
      → LeavesNone v
      → v.files ≢ some []
      → Keeps v (read_virtual to_png v o)
  unfolding read_virtual
  virtual-Keeps v o counted left h = from v.files left h
    where
      from :
          (files : Option (List ForeignFile))
          → (files ≡ none → v.object ≡ 0)
          → files ≢ some []
          → Keeps v (elim files [
            | none ↦ read_text to_png v.object o.unicode o
            | some files ↦ some (virtual_reading v.object files)
          ])
      from none left h = text-Keeps to_png v v.object o.unicode o (left refl)
      from (some []) left h = absurd (h refl)
      from (some (f ∷ files)) left h = (
        unfold virtual_reading entries_of in λ n. (refl, refl),
        virtual-Owns v (f ∷ files) counted,
      )

  read_clipboard-Keeps :
      (a : Answers) (o : Offer)
      → (read_virtual_files a.held o.ole).files ≢ some []
      → Keeps (read_virtual_files a.held o.ole) (read_clipboard to_png a o)
  unfolding read_clipboard read_open
  read_clipboard-Keeps a o filled =
      let v = read_virtual_files a.held o.ole in
      if-cases (Keeps v) (opens_scope a)
        (λ _.
          if-cases (Keeps v) (not (is_empty (hdrop_paths o.hdrop)))
            (λ _. (λ n. absurd (n refl), inl refl))
            (λ _.
              if-cases (Keeps v) o.has_descriptor
                (λ _.
                  virtual-Keeps v o (read_virtual_files-IsCounted a.held o.ole)
                    (read_virtual_files-LeavesNone a.held o.ole) filled)
                (λ _. text-Keeps to_png v 0 o.unicode o refl)))
        (λ _. tt)

  -- ReadClipboard, whatever the clipboard offers, keeps the contract that the Dispatcher relies on, an
  -- object only with files that are virtual, unless ReadVirtualFiles succeeds with no file; an object is
  -- that of ReadVirtualFiles, with the one reference that it has taken and not released; and
  -- ReadVirtualFiles keeps no reference where it leaves no object.
  pub read_clipboard-IsReading :
      (a : Answers) (o : Offer) (r : Reading)
      → (read_virtual_files a.held o.ole).files ≢ some []
      → read_clipboard to_png a o ≡ some r
      → IsReading r
        × Owns (read_virtual_files a.held o.ole) r
        × IsCounted (read_virtual_files a.held o.ole)
  read_clipboard-IsReading a o r filled e =
      let all = read_clipboard-Keeps a o filled in
      let (reading, owned) = rw e at all in
      (reading, owned, read_virtual_files-IsCounted a.held o.ole)

-- The object of another application whose group of virtual files has no item.
abbrev pub empty_group : ℕ → Bytes → Bytes → Offer → Offer
empty_group obj block beyond o = record o {
  hdrop = none;
  has_descriptor = true;
  ole = record { get_clipboard = some obj; registered = true; descriptor = locked block beyond };
}

opens-not-held : (a : Answers) → opens_scope a ≡ true → is_held a.held ≡ false
unfolding opens_scope
opens-not-held a h = ground arith

-- The tables take the paths of such a reading, and the object is dropped.
leaked :
    (obj : ℕ) (d : Dispatcher)
    → obj ≢ 0
    → IsBalanced obj d
    → gained obj (update_files (virtual_reading obj []) d).calls
      ≡ lost obj (update_files (virtual_reading obj []) d).calls
        + held obj (update_files (virtual_reading obj []) d)
        + 1
unfolding update_files update_tables take_object update_file_paths virtual_reading entries_of call
leaked obj d nonnull h =
    let there : (obj == 0) ≡ false = ground arith in
    let null : (0 == obj) ≡ false = ground arith in
    let r = release_object-lost obj nonnull d.virtual_data_object (call (take obj) d) in
    rw there (ground arith)

module _ (to_png : BgraImage → Option Bytes) (a : Answers) (o : Offer) (obj : ℕ)
    (block beyond : Bytes) (opened : opens_scope a ≡ true) (nonnull : obj ≢ 0)
    (empty : read_le32 block ≡ 0) where
  read-empty_group :
      read_clipboard to_png a (empty_group obj block beyond o) ≡ some (virtual_reading obj [])
  unfolding read_clipboard read_open read_virtual read_virtual_files read_from read_descriptor
      read_files read_group hdrop_paths read_slots
  read-empty_group =
      let not_held = opens-not-held a opened in
      let there : (obj == 0) ≡ false = ground arith in rw (opened, not_held, there, empty) refl

  -- A clipboard with such an object, and a GET_CLIPBOARD: the Dispatcher takes a reference that it
  -- neither releases nor holds.
  pub empty_group-leaks :
      (w : World) (d : Dispatcher)
      → w.read_clipboard ≡ read_clipboard to_png a (empty_group obj block beyond o)
      → IsBalanced obj d
      → gained obj (handle_get_clipboard w d).0.calls
        ≡ lost obj (handle_get_clipboard w d).0.calls + held obj (handle_get_clipboard w d).0 + 1
  unfolding handle_get_clipboard
  empty_group-leaks w d reads h =
      rw (reads, read-empty_group) (unfold get_reading in leaked obj d nonnull h)
