-- ===== src/Linux/UriList/Encoding.antt =====
-- linux/src/uri_list_format.cpp: PercentEncodePath against a reader of percent-encoding.
use clipboard_helper.Prelude.{
  ℕ, ◌+◌, ◌-◌, ◌*◌, ◌/◌, ◌%◌, ◌<◌, ◌≡◌, refl, ap, inl, inr, true, false, [], ◌∷◌, ◌||◌, arith, ltb,
  ◌==◌, if◌then◌else◌, Bool-cases, Bytes, All, IsByte,
}
use clipboard_helper.Linux.UriList.{is_uri_path_safe, hex_digit, percent_encode_path}

-- RFC 3986: the reader's side.
abbrev pub hex_value : ℕ → ℕ
hex_value d = if ltb d 58 then d - 48 else d - 55

unfoldable pub percent_decode : Bytes → Bytes
percent_decode [] = []
percent_decode (c ∷ []) = c ∷ []
percent_decode (c ∷ d ∷ []) = c ∷ d ∷ []
percent_decode (c ∷ d ∷ e ∷ s) =
    let escaped = percent_decode s in
    let plain = percent_decode (d ∷ e ∷ s) in
    if c == b'%' then (16 * hex_value d + hex_value e) ∷ escaped else c ∷ plain

decode-plain :
    (c : ℕ) (t : Bytes) → (c == b'%') ≡ false → percent_decode (c ∷ t) ≡ c ∷ percent_decode t
unfolding percent_decode
decode-plain c [] h = refl
decode-plain c (d ∷ []) h = refl
decode-plain c (d ∷ e ∷ t) h = rw h

decode-escaped :
    (c : ℕ) (t : Bytes)
    → c < 256
    → percent_decode (b'%' ∷ hex_digit (c / 16) ∷ hex_digit (c % 16) ∷ t) ≡ c ∷ percent_decode t
unfolding percent_decode
decode-escaped c t h =
    let high = value_digit (c / 16) (omega arith) in
    let low = value_digit (c % 16) (omega arith) in
    let whole : 16 * (c / 16) + c % 16 ≡ c = omega arith in rw (high, low, whole)
  where
    value_digit : (n : ℕ) → n < 16 → hex_value (hex_digit n) ≡ n
    value_digit n h = unfold hex_digit in ground arith

safe-ne-percent : (c : ℕ) → is_uri_path_safe c ≡ true → (c == b'%') ≡ false
unfolding is_uri_path_safe
safe-ne-percent c h = ground arith

-- A path of bytes is what a reader of its percent-encoding decodes.
pub percent_decode-percent_encode_path :
    (path : Bytes) → All IsByte path → percent_decode (percent_encode_path path) ≡ path
unfolding percent_encode_path percent_decode
percent_decode-percent_encode_path [] h = refl
percent_decode-percent_encode_path (c ∷ path) h = elim (Bool-cases (is_uri_path_safe c)) [
  | inl safe ↦
      rw (safe, percent_encode_path)
        (rw (decode-plain c (percent_encode_path path) (safe-ne-percent c safe))
          (ap (λ t. c ∷ t) (percent_decode-percent_encode_path path h.1)))
  | inr other ↦
      rw (other, percent_encode_path)
        (rw (decode-escaped c (percent_encode_path path) h.0)
          (ap (λ t. c ∷ t) (percent_decode-percent_encode_path path h.1)))
]

-- A byte that may stand in a URI path.
abbrev pub IsUriByte : ℕ → Type 0
IsUriByte c = (is_uri_path_safe c || c == b'%') ≡ true

-- Every byte of a path's percent-encoding is safe or `%`.
pub percent_encode_path-IsUriByte :
    (path : Bytes) → All IsByte path → All IsUriByte (percent_encode_path path)
unfolding percent_encode_path
percent_encode_path-IsUriByte [] h = tt
percent_encode_path-IsUriByte (c ∷ path) h =
    let rest = percent_encode_path-IsUriByte path h.1 in
    elim (Bool-cases (is_uri_path_safe c)) [
      | inl safe ↦ rw (safe, percent_encode_path) (rw safe refl, rest)
      | inr other ↦
          rw (other, percent_encode_path)
            ((
              is_uri 37 (omega arith),
              (digit (c / 16) (omega arith), (digit (c % 16) (omega arith), rest)),
            ))
    ]
  where
    is_uri : (n : ℕ) → n ≡ 37 → IsUriByte n
    is_uri n h = unfold is_uri_path_safe in ground arith

    digit : (n : ℕ) → n < 16 → IsUriByte (hex_digit n)
    digit n h = unfold is_uri_path_safe hex_digit in ground arith
