-- ===== src/Windows/Formats.antt =====
-- windows/src/clipboard_format.cpp: the byte layouts of the clipboard formats. Structures are written
-- and read as the Windows headers lay them out: little-endian, `wchar_t` two bytes. An `int` or a
-- LONG is given by its 32 bits.
pub mod Layout
pub mod Dib
pub mod DibRows
pub mod DibTrip
pub mod Hdrop
pub mod Group
pub mod Slots
pub mod GroupTrip
pub mod Names
use clipboard_helper.Prelude.{
  ℕ, zero, suc, ◌+◌, ◌-◌, ◌*◌, ◌/◌, ◌%◌, ◌^◌, Option, none, some, Bool, true, false, not, ◌&&◌,
  ◌||◌, List, [], ◌∷◌, ◌++◌, ltb, leb, ◌==◌, if◌then◌else◌, Bytes, length, take, is_empty,
}
use clipboard_helper.Windows.Codec.Files.{Wide, VirtualFileSpec}
use clipboard_helper.Windows.Formats.Layout.{le16, le32, le64, zeros, units_le}

-- kMaxImageDimension of wic_image.h.
abbrev pub max_image_dimension : ℕ
max_image_dimension = 16384

-- kMaxVirtualFileSpecs of clipboard_ops.h.
abbrev pub max_virtual_file_specs : ℕ
max_virtual_file_specs = 100000

-- OsClipboardHeldGuard, its destructor, and IsOsClipboardHeldByThisThread.
unfoldable pub enter_guard : ℕ → ℕ
enter_guard held = held + 1

unfoldable pub leave_guard : ℕ → ℕ
leave_guard held = held - 1

unfoldable pub is_held : ℕ → Bool
is_held held = not (held == 0)

-- `0 < n` of an `int`.
abbrev pub positive : ℕ → Bool
positive n = ltb 0 n && ltb n (2 ^ 31)

-- The fields of BITMAPV5HEADER from bV5Size on, those that are not assigned 0.
unfoldable pub dib_v5_header : ℕ → ℕ → Bytes
dib_v5_header width height =
    le32 124
    ++ (le32 width
        ++ (le32 (2 ^ 32 - height)
            ++ (le16 1
                ++ (le16 32
                    ++ (le32 3
                        ++ (le32 (width * 4 * height)
                            ++ (zeros 16
                                ++ (le32 0x00FF0000
                                    ++ (le32 0x0000FF00
                                        ++ (le32 0x000000FF
                                            ++ (le32 0xFF000000
                                                ++ (le32 0x73524742
                                                    ++ (zeros 48
                                                        ++ (le32 2 ++ zeros 12))))))))))))))

-- The pixels are a pointer, which may be null, and a length.
unfoldable pub build_cf_dib_v5_payload : ℕ → ℕ → Option Bytes → ℕ → Bytes
build_cf_dib_v5_payload width height bgra_pixels pixel_bytes_len =
    if not (positive width) || not (positive height)
    then []
    else if ltb max_image_dimension width || ltb max_image_dimension height
    then []
    else if not (pixel_bytes_len == width * 4 * height)
    then []
    else elim bgra_pixels [
      | none ↦ []
      | some pixels ↦ dib_v5_header width height ++ take (width * 4 * height) pixels
    ]

-- The loop that copies the paths, each with its NUL, and the last NUL.
unfoldable pub hdrop_units : List Wide → Wide
hdrop_units [] = 0 ∷ []
hdrop_units (p ∷ paths) = p ++ 0 ∷ hdrop_units paths

-- DROPFILES: pFiles, pt, fNC, fWide.
unfoldable pub build_cf_hdrop_payload : List Wide → Bytes
build_cf_hdrop_payload [] = []
build_cf_hdrop_payload (p ∷ paths) =
    le32 20 ++ (zeros 12 ++ (le32 1 ++ units_le (hdrop_units (p ∷ paths))))

-- The last of the first `n` units.
unfoldable pub unit_before : ℕ → Wide → ℕ
unit_before zero s = 0
unit_before (suc n) [] = 0
unit_before (suc zero) (c ∷ s) = c
unit_before (suc (suc n)) (c ∷ s) = unit_before (suc n) s

abbrev pub is_high_surrogate : ℕ → Bool
is_high_surrogate c = leb 0xD800 c && leb c 0xDBFF

-- How many units of a name are copied: MAX_PATH - 1 at most, and no half of a surrogate pair.
unfoldable pub name_copy : Wide → ℕ
unfolding unit_before
name_copy n =
    if ltb 259 (length n)
    then (if is_high_surrogate (unit_before 259 n) then 258 else 259)
    else length n

unfoldable pub backslashes : Wide → Wide
backslashes [] = []
backslashes (c ∷ s) = (if c == b'/' then b'\\' else c) ∷ backslashes s

-- cFileName, MAX_PATH units.
unfoldable pub file_name_field : Wide → Wide
unfolding name_copy backslashes
file_name_field n = backslashes (take (name_copy n) n) ++ zeros (260 - name_copy n)

-- FILEDESCRIPTORW: dwFlags, clsid, sizel and pointl, dwFileAttributes, ftCreationTime and
-- ftLastAccessTime, ftLastWriteTime, nFileSizeHigh, nFileSizeLow, cFileName. The flags are
-- FD_FILESIZE, FD_ATTRIBUTES, FD_WRITESTIME and FD_PROGRESSUI; `now` is the system's time.
unfoldable pub file_descriptor : ℕ → VirtualFileSpec → Bytes
unfolding file_name_field
file_descriptor now spec =
    le32 0x4064
    ++ (zeros 32
        ++ (le32 (if spec.is_directory then 0x10 else 0x80)
            ++ (zeros 16
                ++ (le64 now
                    ++ (le32 (spec.size / 2 ^ 32)
                        ++ (le32 (spec.size % 2 ^ 32) ++ units_le (file_name_field spec.name)))))))

-- The loop over the slots from `i` on; `times i` is what GetSystemTimeAsFileTime answers for slot `i`.
unfoldable pub file_descriptors : (ℕ → ℕ) → ℕ → List VirtualFileSpec → Bytes
file_descriptors times i [] = []
file_descriptors times i (spec ∷ specs) =
    file_descriptor (times i) spec ++ file_descriptors times (i + 1) specs

unfoldable pub build_file_group_descriptor_payload : (ℕ → ℕ) → List VirtualFileSpec → Bytes
build_file_group_descriptor_payload times specs =
    if is_empty specs
    then []
    else if ltb max_virtual_file_specs (length specs)
    then []
    else le32 (length specs) ++ file_descriptors times 0 specs
