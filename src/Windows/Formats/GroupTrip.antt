-- ===== src/Windows/Formats/GroupTrip.antt =====
-- windows/src/clipboard_format.cpp and clipboard_ops.cpp: BuildFileGroupDescriptorPayload against
-- ReadVirtualFiles, and what ReadVirtualFiles makes of a name without a NUL.
use clipboard_helper.Prelude.{
  ℕ, ◌+◌, ◌-◌, ◌*◌, ◌≤◌, ◌<◌, ◌≡◌, refl, sym, ◌∙◌, ap, some, true, false, List, [], ◌∷◌, ◌++◌,
  append_assoc, ltb, arith, Bytes, length, drop, length-append, All, drop-append, drop_more, lt→ltb,
  le→ltb,
}
use clipboard_helper.Windows.Codec.Files.{Wide, VirtualFileSpec}
use clipboard_helper.Windows.Formats.{
  file_descriptor, file_descriptors, build_file_group_descriptor_payload, max_virtual_file_specs,
}
use clipboard_helper.Windows.Formats.Layout.{
  le32, units_le, read_units, length-units_le, read_le32-le32,
}
use clipboard_helper.Windows.Formats.Names.{slot_name}
use clipboard_helper.Windows.Formats.Group.{
  ForeignFile, c_string, slot_at, read_slot, read_slots, read_group,
}
use clipboard_helper.Windows.Formats.Slots.{
  read_units-append, c_string-runs, positive_units, narrow_units, length-file_descriptor,
  read_slot-file_descriptor, IsName, IsSpec,
}

-- What the slots of some files are read as, from slot `i` on.
abbrev pub slots_of : List VirtualFileSpec → ℕ → List ForeignFile
slots_of [] i = []
slots_of (spec ∷ specs) i =
    record { name = slot_name spec.name; size = spec.size; lindex = i } ∷ slots_of specs (i + 1)

module _ (times : ℕ → ℕ) (memory beyond : Bytes) where
  slot_at-next :
      (spec : VirtualFileSpec) (specs : List VirtualFileSpec) (i : ℕ)
      → slot_at memory i ≡ file_descriptors times i (spec ∷ specs) ++ beyond
      → slot_at memory (i + 1) ≡ file_descriptors times (i + 1) specs ++ beyond
  unfolding file_descriptors
  slot_at-next spec specs i h =
      let fd = file_descriptor (times i) spec in
      let rest = file_descriptors times (i + 1) specs ++ beyond in
      let next : 4 + 592 * (i + 1) ≡ 4 + 592 * i + 592 = omega arith in
      let size : length fd ≡ 592 = length-file_descriptor (times i) spec beyond in
      rw
        (
          next,
          sym (drop_more 592 (4 + 592 * i) memory),
          h,
          append_assoc fd (file_descriptors times (i + 1) specs) beyond,
          sym size,
        )
        (drop-append fd rest)

  read_slots-file_descriptors :
      (specs : List VirtualFileSpec) (i : ℕ)
      → All IsSpec specs
      → slot_at memory i ≡ file_descriptors times i specs ++ beyond
      → read_slots memory (length specs) i ≡ slots_of specs i
  unfolding read_slots
  read_slots-file_descriptors [] i h e = refl
  read_slots-file_descriptors (spec ∷ specs) i (hs, hr) e =
      let regroup =
        append_assoc (file_descriptor (times i) spec) (file_descriptors times (i + 1) specs)
          beyond in
      let first : slot_at memory i
          ≡ file_descriptor (times i) spec ++ (file_descriptors times (i + 1) specs ++ beyond) =
        e ∙ unfold file_descriptors in regroup in
      rw
        (
          first,
          read_slot-file_descriptor (times i) spec (file_descriptors times (i + 1) specs ++ beyond)
              i hs,
        )
        (ap (λ t. record { name = slot_name spec.name; size = spec.size; lindex = i } ∷ t)
          (read_slots-file_descriptors specs (i + 1) hr (slot_at-next spec specs i e)))

length-file_descriptors :
    (times : ℕ → ℕ) (i : ℕ) (specs : List VirtualFileSpec)
    → length (file_descriptors times i specs) ≡ 592 * length specs
unfolding file_descriptors
length-file_descriptors times i [] = refl
length-file_descriptors times i (spec ∷ specs) = omega (
  arith,
  length-append (file_descriptor (times i) spec) (file_descriptors times (i + 1) specs),
  length-file_descriptor (times i) spec [],
  length-file_descriptors times (i + 1) specs,
)

group-read :
    (times : ℕ → ℕ) (specs : List VirtualFileSpec) (beyond : Bytes)
    → 0 < length specs
    → length specs ≤ max_virtual_file_specs
    → All IsSpec specs
    → read_group (le32 (length specs) ++ file_descriptors times 0 specs) beyond
      ≡ some (slots_of specs 0)
unfolding read_group
group-read times specs beyond h0 hm h =
    let block = le32 (length specs) ++ file_descriptors times 0 specs in
    let count = read_le32-le32 (length specs) (file_descriptors times 0 specs) (omega arith) in
    let few : ltb max_virtual_file_specs (length specs) ≡ false = le→ltb _ _ hm in
    let size : length block ≡ 4 + 592 * length specs =
      unfold le32 in omega (arith, length-file_descriptors times 0 specs) in
    let whole : ltb (length block) (596 + (length specs - 1) * 592) ≡ false =
      le→ltb _ _ (omega (arith, size)) in
    let some_files : ltb 0 (length specs) ≡ true = lt→ltb _ _ h0 in
    rw (count, few, some_files, whole)
      (ap (λ t. some t)
        (read_slots-file_descriptors times (block ++ beyond) beyond specs 0 h
          (unfold le32 in refl)))

-- What BuildFileGroupDescriptorPayload makes of some files, 100000 at most, with names without a NUL and
-- 64-bit sizes, ReadVirtualFiles reads as those files in their order: each with its name, cut and with
-- backslashes as the slot holds it, its size and its index, whatever lies behind the block.
pub read_group-build_file_group_descriptor_payload :
    (times : ℕ → ℕ) (spec : VirtualFileSpec) (specs : List VirtualFileSpec) (beyond : Bytes)
    → length (spec ∷ specs) ≤ max_virtual_file_specs
    → All IsSpec (spec ∷ specs)
    → read_group (build_file_group_descriptor_payload times (spec ∷ specs)) beyond
      ≡ some (slots_of (spec ∷ specs) 0)
unfolding build_file_group_descriptor_payload
read_group-build_file_group_descriptor_payload times spec specs beyond hm h =
    let few : ltb max_virtual_file_specs (length (spec ∷ specs)) ≡ false = le→ltb _ _ hm in
    rw few (group-read times (spec ∷ specs) beyond (omega arith) hm h)

-- A block with one slot, whose cFileName has no NUL: the name that ReadVirtualFiles takes goes on into
-- the memory behind the block.
pub read_group-unterminated :
    (head beyond : Bytes) (u : Wide)
    → length head ≡ 72
    → length u ≡ 260
    → IsName u
    → read_group (le32 1 ++ (head ++ units_le u)) beyond
      ≡ some (
          record (read_slot (head ++ (units_le u ++ beyond)) 0) {
            name = u ++ c_string (read_units beyond);
          }
          ∷ [])
unfolding read_group
read_group-unterminated head beyond u hh hu named =
    let rest = head ++ units_le u in
    let slot = head ++ (units_le u ++ beyond) in
    let few : ltb max_virtual_file_specs 1 ≡ false = refl in
    let size : length (le32 1 ++ rest) ≡ 596 =
      unfold le32 in omega (arith, length-append head (units_le u), length-units_le u) in
    let whole : ltb (length (le32 1 ++ rest)) 596 ≡ false = rw size refl in
    let start : slot_at ((le32 1 ++ rest) ++ beyond) 0 ≡ slot =
      unfold le32 in append_assoc head (units_le u) beyond in
    let behind : drop 72 slot ≡ units_le u ++ beyond =
      rw (sym hh) (drop-append head (units_le u ++ beyond)) in
    let run : c_string (read_units (units_le u ++ beyond)) ≡ u ++ c_string (read_units beyond) =
      rw (read_units-append u beyond (narrow_units u named))
        (c_string-runs u (read_units beyond) (positive_units u named)) in
    rw (read_le32-le32 1 rest (omega arith), whole)
      (unfold read_slots read_slot in rw (start, behind, run) refl)
