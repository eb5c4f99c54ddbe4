-- ===== src/Windows/Formats/DibTrip.antt =====
-- windows/src/clipboard_format.cpp and clipboard_ops.cpp: BuildCfDibV5Payload against
-- ReadClipboardDibToBgra.
use clipboard_helper.Prelude.{
  ℕ, zero, suc, ◌+◌, ◌-◌, ◌*◌, ◌/◌, ◌^◌, ◌≤◌, ◌<◌, ◌≡◌, refl, sym, ◌∙◌, ap, some, true, false, ◌||◌,
  [], ◌∷◌, ◌++◌, ltb, leb, ◌==◌, arith, Bytes, length, take, drop, take_all, drop_more,
}
use clipboard_helper.Windows.Formats.{
  max_image_dimension, positive, dib_v5_header, build_cf_dib_v5_payload,
}
use clipboard_helper.Windows.Formats.Layout.{le16, le32, zeros, read_le16, read_le32}
use clipboard_helper.Windows.Formats.Dib.{
  u16_at, u32_at, abs_height, header_size, src_stride, accepts_header, copy_row, src_y, copy_rows,
  image_of, read_dib,
}

module _ (w h : ℕ) (px : Bytes) where
  abbrev base : Bytes
  base = dib_v5_header w h ++ px

  base-size : u32_at 0 base ≡ 124
  unfolding dib_v5_header le32 read_le32
  base-size = refl

  base-width : w < 2 ^ 32 → u32_at 4 base ≡ w
  unfolding dib_v5_header le32 read_le32
  base-width b = omega arith

  base-height : 0 < h → h < 2 ^ 32 → u32_at 8 base ≡ 2 ^ 32 - h
  unfolding dib_v5_header le32 read_le32
  base-height p b = omega arith

  base-bits : u16_at 14 base ≡ 32
  unfolding dib_v5_header le32 le16 read_le16
  base-bits = refl

  base-compression : u32_at 16 base ≡ 3
  unfolding dib_v5_header le32 le16 read_le32
  base-compression = refl

  base-pixels : drop 124 base ≡ px
  unfolding dib_v5_header le32 le16 zeros
  base-pixels = refl

  length-base : length base ≡ 124 + length px
  unfolding dib_v5_header le32 le16 zeros
  length-base = omega arith

take-nil : (n : ℕ) → take {A = ℕ} n [] ≡ []
take-nil zero = refl
take-nil (suc n) = refl

take-append-take : (a b : ℕ) (xs : Bytes) → take a xs ++ take b (drop a xs) ≡ take (a + b) xs
take-append-take zero b xs = ap (λ n. take n xs) (omega arith)
take-append-take (suc a) b [] = take-nil b ∙ sym (take-nil (suc a + b))
take-append-take (suc a) b (x ∷ xs) =
    let e : suc a + b ≡ suc (a + b) = omega arith in
    rw e (ap (λ t. x ∷ t) (take-append-take a b xs))

copy_rows-take :
    (w h : ℕ) (px : Bytes) (n y : ℕ)
    → copy_rows true w h 4 px n y ≡ take (n * (w * 4)) (drop (y * (w * 4)) px)
unfolding copy_rows copy_row src_y src_stride
copy_rows-take w h px zero y = let e : zero * (w * 4) ≡ 0 = omega arith in rw e refl
copy_rows-take w h px (suc n) y =
    let stride : (w * 4 + 3) / 4 * 4 ≡ w * 4 = omega arith in
    let next : (y + 1) * (w * 4) ≡ y * (w * 4) + w * 4 = grind arith in
    let more : suc n * (w * 4) ≡ w * 4 + n * (w * 4) = grind arith in
    rw
      (
        stride,
        copy_rows-take w h px n (y + 1),
        next,
        more,
        sym (drop_more (w * 4) (y * (w * 4)) px),
      )
      (take-append-take (w * 4) (n * (w * 4)) (drop (y * (w * 4)) px))

module _ (w h : ℕ) (px : Bytes) (w0 : 0 < w) (wm : w ≤ max_image_dimension) (h0 : 0 < h)
    (hm : h ≤ max_image_dimension) (sized : length px ≡ w * 4 * h) where
  base-abs : abs_height (2 ^ 32 - h) ≡ h
  unfolding abs_height
  base-abs = ground arith

  base-accepted : accepts_header (base w h px) ≡ true
  unfolding accepts_header
  base-accepted =
      rw
        (
          base-size w h px,
          base-width w h px (omega arith),
          base-height w h px h0 (omega arith),
          base-bits w h px,
          base-compression w h px,
          base-abs,
          length-base w h px,
        )
        (ground arith)

  base-header : header_size (base w h px) ≡ 124
  unfolding header_size
  base-header = rw (base-size w h px, base-compression w h px) refl

  base-whole : ltb (length (base w h px)) (124 + src_stride w 4 * h) ≡ false
  unfolding src_stride
  base-whole =
      let stride : (w * 4 + 3) / 4 * 4 ≡ w * 4 = omega arith in
      rw stride (ground (arith, length-base w h px))

  rows-base : copy_rows true w h 4 px h 0 ≡ px
  rows-base =
      let start : zero * (w * 4) ≡ 0 = omega arith in
      let all : length px ≤ h * (w * 4) = grind arith in
      rw (copy_rows-take w h px h 0, start) (take_all (h * (w * 4)) px all)

  read-base : read_dib (base w h px) ≡ some (record { width = w; height = h; pixels = px })
  unfolding read_dib image_of
  read-base =
      let short : ltb (length (base w h px)) 124 ≡ false = ground (arith, length-base w h px) in
      let down : leb (2 ^ 31) (2 ^ 32 - h) ≡ true = ground arith in
      rw
        (
          base-accepted,
          base-header,
          short,
          base-width w h px (omega arith),
          base-height w h px h0 (omega arith),
          base-bits w h px,
          base-abs,
          base-whole,
          down,
          base-pixels w h px,
          rows-base,
        )
        refl

-- What BuildCfDibV5Payload makes of an image of at most 16384 by 16384 pixels, with four bytes for each,
-- ReadClipboardDibToBgra reads back as the image.
pub read_dib-build_cf_dib_v5_payload :
    (w h : ℕ) (px : Bytes)
    → 0 < w
    → w ≤ max_image_dimension
    → 0 < h
    → h ≤ max_image_dimension
    → length px ≡ w * 4 * h
    → read_dib (build_cf_dib_v5_payload w h (some px) (length px))
      ≡ some (record { width = w; height = h; pixels = px })
unfolding build_cf_dib_v5_payload
read_dib-build_cf_dib_v5_payload w h px w0 wm h0 hm sized =
    let pw : positive w ≡ true = ground arith in
    let ph : positive h ≡ true = ground arith in
    let cw : (ltb max_image_dimension w || ltb max_image_dimension h) ≡ false = ground arith in
    let same : (length px == w * 4 * h) ≡ true = ground arith in
    let whole : take (w * 4 * h) px ≡ px = take_all (w * 4 * h) px (omega arith) in
    rw (pw, ph, cw, same, whole) (read-base w h px w0 wm h0 hm sized)
