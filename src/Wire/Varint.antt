-- ===== src/Wire/Varint.antt =====
-- Varints: what the writer writes, what the reader reads, and their round trip.
use native.Mathlib.Nat.{pow-le-pow_right}
use native.Mathlib.Decide.{dec_le}
use native.Mathlib.Numerals.{towards_suc}
use clipboard_helper.Prelude.{
  ℕ, zero, suc, ◌+◌, ◌-◌, ◌*◌, ◌/◌, ◌%◌, ◌^◌, ◌≤◌, ◌<◌, ◌≡◌, refl, ◌∙◌, [], ◌∷◌, ◌++◌, arith,
  bit_or, bit_or_disjoint, leb, Bytes, length, Bool-cases, le→ltb, inl, inr,
}
use clipboard_helper.Prelude.Parse.{parsed}
use clipboard_helper.Wire.{write_varint_loop, write_varint, read_varint_loop, read_varint}

-- The encodings of a number: groups of seven bits, lowest first, the high bit set on all but the
-- last byte. The number is not bounded, and needless high groups of zeros are allowed.
pub data Varint : Bytes → ℕ → Type 0 where
  last : (b : ℕ) → b < 2 ^ 7 → Varint (b ∷ []) b
  group :
      (b : ℕ) {bs : Bytes} {v w : ℕ}
      → 2 ^ 7 ≤ b
      → b < 2 ^ 8
      → w ≡ b - 2 ^ 7 + v * 2 ^ 7
      → Varint bs v
      → Varint (b ∷ bs) w

set_high_bit : (v : ℕ) → bit_or (v % 2 ^ 7) 0x80 % 256 ≡ v % 2 ^ 7 + 2 ^ 7
set_high_bit v = omega (arith, bit_or_disjoint 7 (v % 2 ^ 7) 1 (omega arith))

-- One more round allows seven more bits.
pow_seven_more : (s : ℕ) → 2 ^ (s + 7) ≡ 128 * 2 ^ s
pow_seven_more s = simp towards_suc (omega arith)

pow_group : (k : ℕ) → 2 ^ (7 * suc k) ≡ 128 * 2 ^ (7 * k)
pow_group k = let e : 7 * suc k ≡ 7 * k + 7 = omega arith in rw e (pow_seven_more (7 * k))

low_byte : (v : ℕ) → v < 2 ^ 7 → Varint (v % 256 ∷ []) v
low_byte v h = let e : v % 256 ≡ v = omega arith in rw e (last v h)

high_byte :
    {bs : Bytes} (v : ℕ) → Varint bs (v / 2 ^ 7) → Varint (bit_or (v % 2 ^ 7) 0x80 % 256 ∷ bs) v
high_byte v more =
    rw set_high_bit (group (v % 2 ^ 7 + 2 ^ 7) (omega arith) (omega arith) (omega arith) more)

-- Enough rounds, and the loop writes an encoding of its number.
write_varint_loop-Varint :
    (fuel v : ℕ) → v < 2 ^ 7 * 2 ^ (7 * fuel) → Varint (write_varint_loop fuel v) v
unfolding write_varint_loop
write_varint_loop-Varint zero v h = low_byte v (omega arith)
write_varint_loop-Varint (suc fuel) v h = elim (Bool-cases (leb 0x80 v)) [
  | inl big ↦
      rw big
        (high_byte v (write_varint_loop-Varint fuel (v / 2 ^ 7) (omega (arith, pow_group fuel))))
  | inr small ↦ rw small (low_byte v (ground arith))
]

-- Every 64-bit number is written as an encoding of it, in ten bytes at most.
pub write_varint-Varint : (v : ℕ) → v < 2 ^ 64 → Varint (write_varint v) v
unfolding write_varint
write_varint-Varint v h = write_varint_loop-Varint 9 v (omega arith)

length-write_varint_loop : (fuel v : ℕ) → length (write_varint_loop fuel v) ≤ fuel + 1
unfolding write_varint_loop
length-write_varint_loop zero v = omega arith
length-write_varint_loop (suc fuel) v = ground (arith, length-write_varint_loop fuel (v / 2 ^ 7))

pub length-write_varint : (v : ℕ) → length (write_varint v) ≤ 10
unfolding write_varint
length-write_varint v = length-write_varint_loop 9 v

pub length-write_varint_pos : (v : ℕ) → 0 < length (write_varint v)
unfolding write_varint
length-write_varint_pos v = ground arith

-- The loop ends by its own test: more fuel changes nothing.
write_varint_loop_fuel :
    (n m v : ℕ) → v < 2 ^ 7 * 2 ^ (7 * n) → n ≤ m → write_varint_loop m v ≡ write_varint_loop n v
unfolding write_varint_loop
write_varint_loop_fuel zero zero v h le = refl
write_varint_loop_fuel zero (suc m) v h le = ground arith
write_varint_loop_fuel (suc n) zero v h le = absurd (omega arith)
write_varint_loop_fuel (suc n) (suc m) v h le =
    let fits : v / 2 ^ 7 < 2 ^ 7 * 2 ^ (7 * n) = omega (arith, pow_group n) in
    ground (arith, write_varint_loop_fuel n m (v / 2 ^ 7) fits)

-- A 64-bit value is written by nine rounds as by any larger number of them.
pub write_varint_rounds : (m v : ℕ) → v < 2 ^ 64 → 9 ≤ m → write_varint_loop m v ≡ write_varint v
unfolding write_varint
write_varint_rounds m v h le = write_varint_loop_fuel 9 m v (omega arith) le

mul_bound : (c p q : ℕ) → c ≤ 127 → p ≤ q → c * p ≤ 127 * q
mul_bound c p q h k = grind arith

-- The value of a group at its place, added to what the lower groups gave.
group_value :
    (k out c : ℕ)
    → c < 2 ^ 7
    → k ≤ 8
    → out < 2 ^ (7 * k)
    → bit_or out (c * 2 ^ (7 * k) % 2 ^ 64) ≡ out + c * 2 ^ (7 * k)
group_value k out c hc hk low =
    let le : 2 ^ (7 * k) ≤ 2 ^ 56 = pow-le-pow_right (omega arith) {j = 56} (omega arith) in
    let e : c * 2 ^ (7 * k) % 2 ^ 64 ≡ c * 2 ^ (7 * k) =
      omega (arith, mul_bound c (2 ^ (7 * k)) (2 ^ 56) (omega arith) le) in
    rw e (bit_or_disjoint (7 * k) out c low)

-- The tenth group keeps one bit.
last_group_value :
    (out c : ℕ) → out < 2 ^ 63 → bit_or out (c * 2 ^ 63 % 2 ^ 64) ≡ (out + c * 2 ^ 63) % 2 ^ 64
last_group_value out c low =
    let e : c * 2 ^ 63 % 2 ^ 64 ≡ c % 2 * 2 ^ 63 = omega arith in
    rw e (omega (arith, bit_or_disjoint 63 out (c % 2) low))

last_value :
    (k out c : ℕ)
    → c < 2 ^ 7
    → k ≤ 9
    → out < 2 ^ (7 * k)
    → bit_or out (c * 2 ^ (7 * k) % 2 ^ 64) ≡ (out + c * 2 ^ (7 * k)) % 2 ^ 64
last_value k out c hc hk low = elim (dec_le k 8) [
  | yes le ↦
      let p : 2 ^ (7 * k) ≤ 2 ^ 56 = pow-le-pow_right (omega arith) {j = 56} (omega arith) in
      omega
        (arith, group_value k out c hc le low, mul_bound c (2 ^ (7 * k)) (2 ^ 56) (omega arith) p)
  | no gt ↦
      let e : k ≡ 9 = omega arith in
      let low' : out < 2 ^ 63 = rw e at low in rw e (last_group_value out c low')
]

regroup : (out c v w p q : ℕ) → w ≡ c + v * 2 ^ 7 → q ≡ 128 * p → out + c * p + v * q ≡ out + w * p
regroup out c v w p q e d = rw (e, d) (omega arith)

length-Varint_pos : {bs : Bytes} {v : ℕ} → Varint bs v → 0 < length bs
length-Varint_pos (last b h) = omega arith
length-Varint_pos (group b lo hi e more) = omega arith

read_varint_loop-last :
    (b out shift : ℕ) (rest : Bytes)
    → b < 2 ^ 7
    → read_varint_loop (b ∷ rest) out shift ≡ parsed (bit_or out (b * 2 ^ shift % 2 ^ 64), rest)
unfolding read_varint_loop
read_varint_loop-last b out shift rest h =
    let e : b % 2 ^ 7 ≡ b = omega arith in let z : b / 2 ^ 7 % 2 ≡ 0 = omega arith in rw (z, e)

read_varint_loop-group :
    (b out shift : ℕ) (rest : Bytes)
    → 2 ^ 7 ≤ b
    → b < 2 ^ 8
    → shift + 7 ≤ 63
    → read_varint_loop (b ∷ rest) out shift
      ≡ read_varint_loop rest (bit_or out ((b - 2 ^ 7) * 2 ^ shift % 2 ^ 64)) (shift + 7)
unfolding read_varint_loop
read_varint_loop-group b out shift rest lo hi fit =
    let e : b % 2 ^ 7 ≡ b - 2 ^ 7 = omega arith in
    let z : b / 2 ^ 7 % 2 ≡ 1 = omega arith in rw (z, e, le→ltb 63 (shift + 7) fit)

read_varint_loop-Varint :
    {bs : Bytes} {v : ℕ}
    → Varint bs v
    → (k out : ℕ) (rest : Bytes) → length bs + k ≤ 10
    → out < 2 ^ (7 * k)
    → read_varint_loop (bs ++ rest) out (7 * k) ≡ parsed ((out + v * 2 ^ (7 * k)) % 2 ^ 64, rest)
read_varint_loop-Varint (last b h) k out rest fit low =
    rw (read_varint_loop-last b out (7 * k) rest h, last_value k out b h (omega arith) low)
read_varint_loop-Varint (group b {bs} {v = v} {w} lo hi e more) k out rest fit low =
    let c : ℕ = b - 2 ^ 7 in
    let p : ℕ = 2 ^ (7 * k) in
    let k8 : k ≤ 8 = omega (arith, length-Varint_pos more) in
    let next : 7 * k + 7 ≡ 7 * suc k = omega arith in
    let low' : out + c * p < 2 ^ (7 * suc k) =
      omega (arith, pow_group k, mul_bound c p p (omega arith) (omega arith)) in
    let ih = read_varint_loop-Varint more (suc k) (out + c * p) rest (omega arith) low' in
    let total : out + c * p + v * 2 ^ (7 * suc k) ≡ out + w * p =
      regroup out c v w p (2 ^ (7 * suc k)) e (pow_group k) in
    read_varint_loop-group b out (7 * k) (bs ++ rest) lo hi (omega arith)
    ∙ rw (group_value k out c (omega arith) k8 low, next) (rw total at ih)

-- The reader reads any encoding of ten bytes at most, keeps the low 64 bits of the number, and
-- stops behind the encoding.
pub read_varint-Varint :
    {bs : Bytes} {v : ℕ} (rest : Bytes)
    → Varint bs v
    → length bs ≤ 10
    → read_varint (bs ++ rest) ≡ parsed (v % 2 ^ 64, rest)
unfolding read_varint
read_varint-Varint {v = v} rest enc fit =
    let ends : 0 + v * 2 ^ (7 * 0) ≡ v = omega arith in
    let ih = read_varint_loop-Varint enc 0 0 rest (omega arith) (omega arith) in rw ends at ih

-- What the writer writes of a 64-bit value, followed by anything, reads back as that value, and
-- the reader stops behind it.
pub read_varint-write_varint :
    (v : ℕ) (rest : Bytes) → v < 2 ^ 64 → read_varint (write_varint v ++ rest) ≡ parsed (v, rest)
read_varint-write_varint v rest h =
    let same : v % 2 ^ 64 ≡ v = omega arith in
    read_varint-Varint rest (write_varint-Varint v h) (length-write_varint v) ∙ rw same
