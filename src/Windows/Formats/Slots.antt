-- ===== src/Windows/Formats/Slots.antt =====
-- windows/src/clipboard_format.cpp and clipboard_ops.cpp: one slot of a file group, as it is written and
-- as ReadVirtualFiles reads it.
use clipboard_helper.Prelude.{
  ℕ, zero, suc, ◌+◌, ◌-◌, ◌*◌, ◌/◌, ◌%◌, ◌^◌, ◌≤◌, ◌<◌, ◌≡◌, refl, ap, false, List, [], ◌∷◌, ◌++◌,
  append_assoc, ltb, ◌==◌, arith, Bytes, length, take, drop, length-append, All, if-cases, ltb→lt,
  ltb→le, All-append, length-take,
}
use clipboard_helper.Windows.Codec.Files.{Wide, VirtualFileSpec}
use clipboard_helper.Windows.Formats.{
  unit_before, is_high_surrogate, name_copy, backslashes, file_name_field, file_descriptor,
}
use clipboard_helper.Windows.Formats.Layout.{
  le16, le32, le64, zeros, units_le, read_le32, read_units, length-zeros, length-units_le,
}
use clipboard_helper.Windows.Formats.Names.{slot_name, length-backslashes}
use clipboard_helper.Windows.Formats.Group.{c_string, read_slot}

-- The units of a name: 16 bits, no NUL.
abbrev pub IsName : Wide → Type 0
IsName n = All (λ c. (0 < c) × (c < 2 ^ 16)) n

abbrev pub IsSpec : VirtualFileSpec → Type 0
IsSpec spec = IsName spec.name × (spec.size < 2 ^ 64)

pub read_units-append :
    (s : List ℕ) (rest : Bytes)
    → All (λ c. c < 2 ^ 16) s
    → read_units (units_le s ++ rest) ≡ s ++ read_units rest
unfolding read_units units_le le16
read_units-append [] rest h = refl
read_units-append (c ∷ s) rest (hc, hs) =
    let e : c % 256 + c / 2 ^ 8 % 256 * 2 ^ 8 ≡ c = omega arith in
    rw (e, read_units-append s rest hs) refl

-- A name that ends with a NUL is read as it is.
c_string-append : (s rest : Wide) → All (λ c. 0 < c) s → c_string (s ++ 0 ∷ rest) ≡ s
unfolding c_string
c_string-append [] rest h = refl
c_string-append (c ∷ s) rest (hc, hs) =
    let n : (c == 0) ≡ false = ground arith in rw n (ap (λ t. c ∷ t) (c_string-append s rest hs))

-- A name without a NUL is read on.
pub c_string-runs : (s rest : Wide) → All (λ c. 0 < c) s → c_string (s ++ rest) ≡ s ++ c_string rest
unfolding c_string
c_string-runs [] rest h = refl
c_string-runs (c ∷ s) rest (hc, hs) =
    let n : (c == 0) ≡ false = ground arith in rw n (ap (λ t. c ∷ t) (c_string-runs s rest hs))

name-le : (n : Wide) → (name_copy n ≤ 259) × (name_copy n ≤ length n)
unfolding name_copy
name-le n =
    let P = λ (k : ℕ). (k ≤ 259) × (k ≤ length n) in
    if-cases P (ltb 259 (length n))
      (λ long.
        let more = ltb→lt 259 (length n) long in
        if-cases P (is_high_surrogate (unit_before 259 n)) (λ _. (omega arith, omega arith))
          (λ _. (omega arith, omega arith)))
      (λ fits. (ltb→le 259 (length n) fits, omega arith))

slashes-IsName : (n : Wide) → IsName n → IsName (backslashes n)
unfolding backslashes
slashes-IsName [] h = tt
slashes-IsName (c ∷ n) (hc, hn) = (
  if-cases (λ (d : ℕ). (0 < d) × (d < 2 ^ 16)) (c == b'/') (λ _. (omega arith, omega arith))
      (λ _. hc),
  slashes-IsName n hn,
)

take-IsName : (k : ℕ) (n : Wide) → IsName n → IsName (take k n)
take-IsName zero n h = tt
take-IsName (suc k) [] h = tt
take-IsName (suc k) (c ∷ n) (hc, hn) = (hc, take-IsName k n hn)

pub positive_units : (n : Wide) → IsName n → All (λ c. 0 < c) n
positive_units [] h = tt
positive_units (c ∷ n) (hc, hn) = (hc.0, positive_units n hn)

pub narrow_units : (n : Wide) → IsName n → All (λ c. c < 2 ^ 16) n
narrow_units [] h = tt
narrow_units (c ∷ n) (hc, hn) = (hc.1, narrow_units n hn)

narrow_zeros : (k : ℕ) → All (λ c. c < 2 ^ 16) (zeros k)
unfolding zeros
narrow_zeros zero = tt
narrow_zeros (suc k) = (omega arith, narrow_zeros k)

zeros-suc : (k : ℕ) → k ≤ 259 → zeros (260 - k) ≡ 0 ∷ zeros (259 - k)
unfolding zeros
zeros-suc k h = let e : 260 - k ≡ suc (259 - k) = omega arith in rw e refl

-- The name of a slot, whatever stands behind it.
name_field-read :
    (n : Wide) (rest : Bytes)
    → IsName n
    → c_string (read_units (units_le (file_name_field n) ++ rest)) ≡ slot_name n
unfolding file_name_field
name_field-read n rest h =
    let named = slashes-IsName (take (name_copy n) n) (take-IsName (name_copy n) n h) in
    let narrow =
      All-append (λ c. c < 2 ^ 16) (slot_name n) (zeros (260 - name_copy n))
        (narrow_units (slot_name n) named) (narrow_zeros (260 - name_copy n)) in
    rw
      (
        read_units-append (slot_name n ++ zeros (260 - name_copy n)) rest narrow,
        zeros-suc (name_copy n) (name-le n).0,
        append_assoc (slot_name n) (0 ∷ zeros (259 - name_copy n)) (read_units rest),
      )
      (c_string-append (slot_name n) (zeros (259 - name_copy n) ++ read_units rest)
        (positive_units (slot_name n) named))

length-name_field : (n : Wide) → length (units_le (file_name_field n)) ≡ 520
unfolding file_name_field
length-name_field n = omega (
  arith,
  length-units_le (slot_name n ++ zeros (260 - name_copy n)),
  length-append (slot_name n) (zeros (260 - name_copy n)),
  length-backslashes (take (name_copy n) n),
  length-take (name_copy n) n,
  length-zeros (260 - name_copy n),
  (name-le n).0,
  (name-le n).1,
)

module _ (now : ℕ) (spec : VirtualFileSpec) (rest : Bytes) where
  slot-flags : read_le32 (file_descriptor now spec ++ rest) ≡ 0x4064
  unfolding file_descriptor le32 read_le32
  slot-flags = refl

  slot-high :
      spec.size < 2 ^ 64
      → read_le32 (drop 64 (file_descriptor now spec ++ rest)) ≡ spec.size / 2 ^ 32
  unfolding file_descriptor le32 le64 zeros read_le32
  slot-high h = omega arith

  slot-low : read_le32 (drop 68 (file_descriptor now spec ++ rest)) ≡ spec.size % 2 ^ 32
  unfolding file_descriptor le32 le64 zeros read_le32
  slot-low = omega arith

  slot-units :
      drop 72 (file_descriptor now spec ++ rest) ≡ units_le (file_name_field spec.name) ++ rest
  unfolding file_descriptor le32 le64 zeros
  slot-units = refl

  pub length-file_descriptor : length (file_descriptor now spec) ≡ 592
  unfolding file_descriptor le32 le64 zeros
  length-file_descriptor = omega (arith, length-name_field spec.name)

  pub read_slot-file_descriptor :
      (i : ℕ)
      → IsSpec spec
      → read_slot (file_descriptor now spec ++ rest) i
        ≡ record { name = slot_name spec.name; size = spec.size; lindex = i }
  unfolding read_slot
  read_slot-file_descriptor i (named, sized) =
      let whole : spec.size / 2 ^ 32 * 2 ^ 32 + spec.size % 2 ^ 32 ≡ spec.size = omega arith in
      rw
        (
          slot-flags,
          slot-high sized,
          slot-low,
          slot-units,
          name_field-read spec.name rest named,
          whole,
        )
        refl
