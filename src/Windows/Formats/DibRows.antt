-- ===== src/Windows/Formats/DibRows.antt =====
-- windows/src/clipboard_ops.cpp, ReadClipboardDibToBgra: the rows that it copies.
use clipboard_helper.Prelude.{
  ℕ, zero, suc, ◌+◌, ◌*◌, ◌/◌, ◌^◌, ◌≤◌, ◌<◌, ◌≡◌, ◌⊎◌, inl, inr, sym, Option, some, Bool, true,
  false, [], ◌∷◌, ltb, leb, ◌==◌, arith, Bytes, length, drop, length-append, length-take,
  length-drop, Bool-cases, if-cases, ltb→le,
}
use clipboard_helper.Windows.Formats.{max_image_dimension}
use clipboard_helper.Windows.Formats.Dib.{
  BgraImage, u16_at, u32_at, abs_height, header_size, src_stride, accepts_header, expand_row,
  copy_row, src_y, copy_rows, image_of, read_dib,
}

length-expand_row :
    (width : ℕ) (row : Bytes) → width * 3 ≤ length row → length (expand_row width row) ≡ width * 4
unfolding expand_row
length-expand_row zero row h = omega arith
length-expand_row (suc w) [] h = absurd (omega arith)
length-expand_row (suc w) (b ∷ []) h = absurd (omega arith)
length-expand_row (suc w) (b ∷ g ∷ []) h = absurd (omega arith)
length-expand_row (suc w) (b ∷ g ∷ r ∷ row) h = omega (arith, length-expand_row w row (omega arith))

length-copy_row :
    (bpp width : ℕ) (row : Bytes)
    → (bpp ≡ 3) ⊎ (bpp ≡ 4)
    → width * bpp ≤ length row
    → length (copy_row bpp width row) ≡ width * 4
unfolding copy_row
length-copy_row bpp width row (inl e) h =
    let n : (bpp == 4) ≡ false = ground arith in rw n (length-expand_row width row (rw e at h))
length-copy_row bpp width row (inr e) h =
    let n : (bpp == 4) ≡ true = ground arith in
    rw n (omega (arith, length-take (width * 4) row, (rw e at h)))

-- A row that is read lies within the rows of the source.
row_in_range :
    (y height stride width bpp : ℕ) (src : Bytes)
    → y < height
    → width * bpp ≤ stride
    → stride * height ≤ length src
    → width * bpp ≤ length (drop (y * stride) src)
row_in_range y height stride width bpp src below fits enough =
    grind (arith, length-drop (y * stride) src)

src_y-lt : (top_down : Bool) (height y : ℕ) → y < height → src_y top_down height y < height
unfolding src_y
src_y-lt top_down height y h = ground arith

le-src_stride : (width bpp : ℕ) → width * bpp ≤ src_stride width bpp
unfolding src_stride
le-src_stride width bpp = omega arith

length-copy_rows :
    (top_down : Bool) (width height bpp : ℕ) (src : Bytes) (n y : ℕ)
    → (bpp ≡ 3) ⊎ (bpp ≡ 4)
    → src_stride width bpp * height ≤ length src
    → n + y ≤ height
    → length (copy_rows top_down width height bpp src n y) ≡ n * (width * 4)
unfolding copy_rows
length-copy_rows top_down width height bpp src zero y b enough h = omega arith
length-copy_rows top_down width height bpp src (suc n) y b enough h =
    let sy = src_y top_down height y in
    let row = drop (sy * src_stride width bpp) src in
    let within =
      row_in_range sy height (src_stride width bpp) width bpp src
        (src_y-lt top_down height y (omega arith)) (le-src_stride width bpp) enough in
    omega (
      arith,
      length-append (copy_row bpp width row) (copy_rows top_down width height bpp src n (y + 1)),
      length-copy_row bpp width row b within,
      length-copy_rows top_down width height bpp src n (y + 1) b enough (omega arith),
    )

-- What the tests of the header give.
record Accepted (base : Bytes) : Type 0 where
  wide : 0 < u32_at 4 base
  not_too_wide : u32_at 4 base ≤ max_image_dimension
  high : 0 < abs_height (u32_at 8 base)
  not_too_high : abs_height (u32_at 8 base) ≤ max_image_dimension
  depth : (u16_at 14 base / 8 ≡ 3) ⊎ (u16_at 14 base / 8 ≡ 4)

accepted : (base : Bytes) → accepts_header base ≡ true → Accepted base
unfolding accepts_header
accepted base h = record {
  wide = ground arith;
  not_too_wide = ground arith;
  high = ground arith;
  not_too_high = ground arith;
  depth = elim (Bool-cases (u16_at 14 base == 24)) [
    | inl e ↦ inl (ground arith)
    | inr e ↦ inr (ground arith)
  ];
}

abbrev IsWhole : BgraImage → Type 0
IsWhole img =
    (0 < img.width)
    × (img.width ≤ max_image_dimension)
    × (0 < img.height)
    × (img.height ≤ max_image_dimension)
    × (length img.pixels ≡ img.height * (img.width * 4))

image_of-IsWhole :
    (base : Bytes)
    → Accepted base
    → header_size base
        + src_stride (u32_at 4 base) (u16_at 14 base / 8) * abs_height (u32_at 8 base)
      ≤ length base
    → IsWhole (image_of base)
unfolding image_of
image_of-IsWhole base a enough =
    let h = abs_height (u32_at 8 base) in
    let src = drop (header_size base) base in
    (
      a.wide,
      a.not_too_wide,
      a.high,
      a.not_too_high,
      length-copy_rows (leb (2 ^ 31) (u32_at 8 base)) (u32_at 4 base) h (u16_at 14 base / 8) src h 0
          a.depth (omega (arith, length-drop (header_size base) base)) (omega arith),
    )

-- Whatever a bitmap on the clipboard claims of itself: an image that is read is at most 16384 pixels
-- wide and high, and has four bytes for each pixel, that is, no row is read beyond the block.
pub read_dib-IsWhole :
    (base : Bytes) (img : BgraImage)
    → read_dib base ≡ some img
    → (0 < img.width)
      × (img.width ≤ max_image_dimension)
      × (0 < img.height)
      × (img.height ≤ max_image_dimension)
      × (length img.pixels ≡ img.height * (img.width * 4))
unfolding read_dib
read_dib-IsWhole base img h =
    let P = λ (o : Option BgraImage). o ≡ some img → IsWhole img in
    if-cases P (accepts_header base)
      (λ ok.
        if-cases P (ltb (length base) (header_size base)) (λ _ e. cc)
          (λ _.
            if-cases P (ltb (length base) (header_size base + needed)) (λ _ e. cc)
              (λ enough e. same e (image_of-IsWhole base (accepted base ok) (ltb→le _ _ enough)))))
      (λ _ e. cc) h
  where
    needed : ℕ
    needed = src_stride (u32_at 4 base) (u16_at 14 base / 8) * abs_height (u32_at 8 base)

    same : some (image_of base) ≡ some img → IsWhole (image_of base) → IsWhole img
    same e w = let q : image_of base ≡ img = cc in rw (sym q) w
