-- ===== src/Windows/Formats/Group.antt =====
-- windows/src/clipboard_ops.cpp, ReadVirtualFiles: the FILEGROUPDESCRIPTORW of another application. The
-- block has the size that GlobalSize gives; `beyond` is the memory behind it, which a name without a
-- NUL runs into.
use clipboard_helper.Prelude.{
  ℕ, zero, suc, ◌+◌, ◌-◌, ◌*◌, ◌/◌, ◌%◌, ◌^◌, Option, none, some, ◌&&◌, List, [], ◌∷◌, ◌++◌, ltb,
  ◌==◌, if◌then◌else◌, Bytes, length, drop,
}
use clipboard_helper.Windows.Codec.Files.{Wide}
use clipboard_helper.Windows.Formats.Layout.{read_le32, read_units}

-- VirtualFileEntry of clipboard_ops.h.
pub record ForeignFile : Type 0 where
  pub name : Wide
  pub size : ℕ
  pub lindex : ℕ

-- kMaxInboundVirtualFiles.
abbrev pub max_inbound_virtual_files : ℕ
max_inbound_virtual_files = 100000

-- A `std::wstring` from a pointer: the units before the first NUL.
unfoldable pub c_string : Wide → Wide
c_string [] = []
c_string (c ∷ s) = let rest = c_string s in if c == 0 then [] else c ∷ rest

-- fg->fgd[i], with all memory from there on.
abbrev pub slot_at : Bytes → ℕ → Bytes
slot_at memory i = drop (4 + 592 * i) memory

unfoldable pub read_slot : Bytes → ℕ → ForeignFile
unfolding c_string
read_slot fd i = record {
  name = c_string (read_units (drop 72 fd));
  size =
      if read_le32 fd / 64 % 2 == 1
      then read_le32 (drop 64 fd) * 2 ^ 32 + read_le32 (drop 68 fd)
      else 0;
  lindex = i;
}

-- The loop over the slots: `n` are left, from slot `i` on.
unfoldable pub read_slots : Bytes → ℕ → ℕ → List ForeignFile
read_slots memory zero i = []
read_slots memory (suc n) i = read_slot (slot_at memory i) i ∷ read_slots memory n (i + 1)

unfoldable pub read_group : Bytes → Bytes → Option (List ForeignFile)
read_group block beyond =
    let count = read_le32 block in
    if ltb max_inbound_virtual_files count
    then none
    else if ltb 0 count && ltb (length block) (596 + (count - 1) * 592)
    then none
    else some (read_slots (block ++ beyond) count 0)
