-- ===== src/Windows/Access/Virtual.antt =====
-- windows/src/clipboard_ops.cpp: what ReadVirtualFiles leaves behind, on every path.
use clipboard_helper.Prelude.{
  ℕ, ◌≡◌, refl, Option, none, some, false, List, ◌==◌, if◌then◌else◌, if-cases,
}
use clipboard_helper.Windows.Dispatch.References.{held}
use clipboard_helper.Windows.Formats.{is_held}
use clipboard_helper.Windows.Formats.Group.{ForeignFile, read_group}
use clipboard_helper.Windows.Access.Reads.{
  Descriptor, refused, unlocked, locked, Ole, VirtualRead, read_files, read_descriptor, read_from,
  read_virtual_files,
}

-- ReadVirtualFiles keeps a reference exactly to the object that it leaves behind, on every path.
abbrev pub IsCounted : VirtualRead → Type 0
IsCounted v = v.references ≡ (if v.object == 0 then 0 else 1)

files-IsCounted :
    (obj : ℕ) (files : Option (List ForeignFile))
    → (obj == 0) ≡ false
    → IsCounted (read_files obj files)
unfolding read_files
files-IsCounted obj none h = refl
files-IsCounted obj (some files) h = rw h refl

descriptor-IsCounted :
    (obj : ℕ) (d : Descriptor) → (obj == 0) ≡ false → IsCounted (read_descriptor obj d)
unfolding read_descriptor
descriptor-IsCounted obj refused h = refl
descriptor-IsCounted obj unlocked h = refl
descriptor-IsCounted obj (locked block beyond) h = files-IsCounted obj (read_group block beyond) h

from-IsCounted : (ole : Ole) (obj : Option ℕ) → IsCounted (read_from ole obj)
unfolding read_from
from-IsCounted ole none = refl
from-IsCounted ole (some obj) =
    if-cases IsCounted (obj == 0) (λ _. refl)
      (λ n.
        if-cases IsCounted ole.registered (λ _. descriptor-IsCounted obj ole.descriptor n)
          (λ _. refl))

pub read_virtual_files-IsCounted : (held : ℕ) (ole : Ole) → IsCounted (read_virtual_files held ole)
unfolding read_virtual_files
read_virtual_files-IsCounted held ole =
    if-cases IsCounted (is_held held) (λ _. refl) (λ _. from-IsCounted ole ole.get_clipboard)

-- Where ReadVirtualFiles fails, it leaves no object behind.
abbrev pub LeavesNone : VirtualRead → Type 0
LeavesNone v = (v.files ≡ none) → v.object ≡ 0

files-LeavesNone : (obj : ℕ) (files : Option (List ForeignFile)) → LeavesNone (read_files obj files)
unfolding read_files
files-LeavesNone obj none = λ e. refl
files-LeavesNone obj (some files) = λ e. cc

descriptor-LeavesNone : (obj : ℕ) (d : Descriptor) → LeavesNone (read_descriptor obj d)
unfolding read_descriptor
descriptor-LeavesNone obj refused = λ e. refl
descriptor-LeavesNone obj unlocked = λ e. refl
descriptor-LeavesNone obj (locked block beyond) = files-LeavesNone obj (read_group block beyond)

from-LeavesNone : (ole : Ole) (obj : Option ℕ) → LeavesNone (read_from ole obj)
unfolding read_from
from-LeavesNone ole none = λ e. refl
from-LeavesNone ole (some obj) =
    if-cases LeavesNone (obj == 0) (λ _ e. refl)
      (λ _.
        if-cases LeavesNone ole.registered (λ _. descriptor-LeavesNone obj ole.descriptor)
          (λ _ e. refl))

pub read_virtual_files-LeavesNone :
    (held : ℕ) (ole : Ole) → LeavesNone (read_virtual_files held ole)
unfolding read_virtual_files
read_virtual_files-LeavesNone held ole =
    if-cases LeavesNone (is_held held) (λ _ e. refl) (λ _. from-LeavesNone ole ole.get_clipboard)
