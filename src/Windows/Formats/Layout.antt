-- ===== src/Windows/Formats/Layout.antt =====
-- Little-endian integers and UTF-16 units in a block of memory, as the Windows structures hold them.
use clipboard_helper.Prelude.{
  ℕ, zero, suc, ◌+◌, ◌*◌, ◌/◌, ◌%◌, ◌^◌, ◌<◌, ◌≡◌, refl, List, [], ◌∷◌, ◌++◌, arith, Bytes, length,
  All,
}

unfoldable pub le16 : ℕ → Bytes
le16 n = n % 256 ∷ n / 2 ^ 8 % 256 ∷ []

unfoldable pub le32 : ℕ → Bytes
le32 n = n % 256 ∷ n / 2 ^ 8 % 256 ∷ n / 2 ^ 16 % 256 ∷ n / 2 ^ 24 % 256 ∷ []

unfoldable pub le64 : ℕ → Bytes
unfolding le32
le64 n = le32 n ++ le32 (n / 2 ^ 32)

unfoldable pub zeros : ℕ → List ℕ
zeros zero = []
zeros (suc n) = 0 ∷ zeros n

unfoldable pub units_le : List ℕ → Bytes
unfolding le16
units_le [] = []
units_le (c ∷ s) = le16 c ++ units_le s

-- The integer at the start of a block; a shorter block is never read.
unfoldable pub read_le16 : Bytes → ℕ
read_le16 (a ∷ b ∷ _) = a + b * 2 ^ 8
read_le16 _ = 0

unfoldable pub read_le32 : Bytes → ℕ
read_le32 (a ∷ b ∷ c ∷ d ∷ _) = a + b * 2 ^ 8 + c * 2 ^ 16 + d * 2 ^ 24
read_le32 _ = 0

-- The units of a block; half a unit at its end is not read.
unfoldable pub read_units : Bytes → List ℕ
read_units (a ∷ b ∷ s) = (a + b * 2 ^ 8) ∷ read_units s
read_units _ = []

pub read_le32-le32 : (n : ℕ) (rest : Bytes) → n < 2 ^ 32 → read_le32 (le32 n ++ rest) ≡ n
unfolding read_le32 le32
read_le32-le32 n rest h = omega arith

pub read_le16-le16 : (n : ℕ) (rest : Bytes) → n < 2 ^ 16 → read_le16 (le16 n ++ rest) ≡ n
unfolding read_le16 le16
read_le16-le16 n rest h = omega arith

pub read_units-units_le : (s : List ℕ) → All (λ c. c < 2 ^ 16) s → read_units (units_le s) ≡ s
unfolding read_units units_le
read_units-units_le [] h = refl
read_units-units_le (c ∷ s) (hc, hs) =
    let e : c % 256 + c / 2 ^ 8 % 256 * 2 ^ 8 ≡ c = omega arith in
    rw (e, read_units-units_le s hs) refl

pub length-zeros : (n : ℕ) → length (zeros n) ≡ n
unfolding zeros
length-zeros zero = refl
length-zeros (suc n) = omega (arith, length-zeros n)

pub length-units_le : (s : List ℕ) → length (units_le s) ≡ 2 * length s
unfolding units_le
length-units_le [] = refl
length-units_le (c ∷ s) = omega (arith, length-units_le s)
