-- ===== src/Windows/Formats/Dib.antt =====
-- windows/src/clipboard_ops.cpp, ReadClipboardDibToBgra: a bitmap of the clipboard as 32-bit BGRA rows
-- from the top. A handle is given by the block that GlobalLock and GlobalSize give of it.
use clipboard_helper.Prelude.{
  ℕ, zero, suc, ◌+◌, ◌-◌, ◌*◌, ◌/◌, ◌^◌, Option, none, some, Bool, not, ◌&&◌, ◌||◌, [], ◌∷◌, ◌++◌,
  ltb, leb, ◌==◌, if◌then◌else◌, Bytes, length, take, drop,
}
use clipboard_helper.Windows.Formats.{max_image_dimension, positive}
use clipboard_helper.Windows.Formats.Layout.{read_le16, read_le32}

pub record BgraImage : Type 0 where
  pub width : ℕ
  pub height : ℕ
  pub pixels : Bytes

abbrev pub u16_at : ℕ → Bytes → ℕ
u16_at i base = read_le16 (drop i base)

abbrev pub u32_at : ℕ → Bytes → ℕ
u32_at i base = read_le32 (drop i base)

-- The absolute value of biHeight.
unfoldable pub abs_height : ℕ → ℕ
abs_height raw_h = if leb (2 ^ 31) raw_h then 2 ^ 32 - raw_h else raw_h

-- header_bytes: where the pixels start.
unfoldable pub header_size : Bytes → ℕ
header_size base =
    if u32_at 16 base == 3 && u32_at 0 base == 40 then u32_at 0 base + 12 else u32_at 0 base

-- The rows of the source are padded to four bytes.
unfoldable pub src_stride : ℕ → ℕ → ℕ
src_stride width bytes_per_pixel = (width * bytes_per_pixel + 3) / 4 * 4

-- The tests of the header.
unfoldable pub accepts_header : Bytes → Bool
unfolding abs_height
accepts_header base =
    let raw_w = u32_at 4 base in
    let raw_h = u32_at 8 base in
    let abs_h = abs_height raw_h in
    not (ltb (length base) 40)
    && (not (ltb (u32_at 0 base) 40 || ltb (length base) (u32_at 0 base))
        && (not (not (positive raw_w) || raw_h == 2 ^ 31)
            && (not (ltb max_image_dimension raw_w || ltb max_image_dimension abs_h)
                && (not (abs_h == 0)
                    && ((u32_at 16 base == 0 || u32_at 16 base == 3)
                        && (u16_at 14 base == 24 || u16_at 14 base == 32))))))

-- A row of three bytes a pixel, with the alpha that is not in it; a shorter row is never read.
unfoldable pub expand_row : ℕ → Bytes → Bytes
expand_row zero row = []
expand_row (suc width) (b ∷ g ∷ r ∷ row) = b ∷ g ∷ r ∷ 0xFF ∷ expand_row width row
expand_row (suc width) _ = []

unfoldable pub copy_row : ℕ → ℕ → Bytes → Bytes
unfolding expand_row
copy_row bytes_per_pixel width row =
    if bytes_per_pixel == 4 then take (width * 4) row else expand_row width row

unfoldable pub src_y : Bool → ℕ → ℕ → ℕ
src_y top_down height y = if top_down then y else height - 1 - y

-- The loop over the rows: `n` are left, from row `y` on.
unfoldable pub copy_rows : Bool → ℕ → ℕ → ℕ → Bytes → ℕ → ℕ → Bytes
copy_rows top_down width height bytes_per_pixel src_pixels zero y = []
copy_rows top_down width height bytes_per_pixel src_pixels (suc n) y =
    copy_row bytes_per_pixel width
      (drop (src_y top_down height y * src_stride width bytes_per_pixel) src_pixels)
    ++ copy_rows top_down width height bytes_per_pixel src_pixels n (y + 1)

unfoldable pub image_of : Bytes → BgraImage
image_of base =
    let raw_h = u32_at 8 base in
    record {
      width = u32_at 4 base;
      height = abs_height raw_h;
      pixels =
          copy_rows (leb (2 ^ 31) raw_h) (u32_at 4 base) (abs_height raw_h) (u16_at 14 base / 8)
            (drop (header_size base) base) (abs_height raw_h) 0;
    }

-- ReadClipboardDibToBgra behind GlobalLock.
unfoldable pub read_dib : Bytes → Option BgraImage
read_dib base =
    let needed = src_stride (u32_at 4 base) (u16_at 14 base / 8) * abs_height (u32_at 8 base) in
    if accepts_header base
    then (if ltb (length base) (header_size base)
        then none
        else if ltb (length base) (header_size base + needed)
        then none
        else some (image_of base))
    else none

-- GetClipboardData of CF_DIBV5 and of CF_DIB: `none` is a null handle, `some none` one that GlobalLock
-- refuses.
unfoldable pub read_locked : Option Bytes → Option BgraImage
read_locked none = none
read_locked (some base) = read_dib base

unfoldable pub read_clipboard_dib : Option (Option Bytes) → Option (Option Bytes) → Option BgraImage
unfolding read_locked
read_clipboard_dib (some v5) dib = read_locked v5
read_clipboard_dib none (some h) = read_locked h
read_clipboard_dib none none = none
