-- ===== src/Wire.antt =====
-- linux/src/proto_wire.h and proto_wire.cpp (windows/src holds the same text): the protobuf
-- primitives. A Writer's state is its buffer, and each method only appends: a method is given by
-- the bytes it appends, and a message is their concatenation in the order of the calls. A Reader
-- is given by the bytes from `pos_` on: `eof` is the empty list, `remaining` its length, and a
-- read returns the bytes after it. `false` is `malformed`.
pub mod Varint
pub mod Tags
pub mod Entries
pub mod Written
pub mod Fields
use clipboard_helper.Prelude.{
  ℕ, zero, suc, ◌+◌, ◌-◌, ◌*◌, ◌/◌, ◌%◌, ◌^◌, Bool, true, false, [], ◌∷◌, ◌++◌, bit_or, ltb, leb,
  ◌==◌, if◌then◌else◌, Bytes, length, is_empty, take, drop,
}
use clipboard_helper.Prelude.Parse.{Parse, parsed, malformed, stuck, ◌>>=◌}

-- `enum WireType : std::uint8_t`; a tag can carry 3, 4, 6 and 7 too.
abbrev pub varint : ℕ
varint = 0

abbrev pub fixed64 : ℕ
fixed64 = 1

abbrev pub length_delim : ℕ
length_delim = 2

abbrev pub fixed32 : ℕ
fixed32 = 5

-- `(field_number << 3) | wire` on 32 bits.
unfoldable pub make_tag : ℕ → ℕ → ℕ
make_tag field_number wire = bit_or (field_number * 2 ^ 3 % 2 ^ 32) wire

-- The fuel is the rounds left; the last byte is pushed behind the loop.
unfoldable pub write_varint_loop : ℕ → ℕ → Bytes
write_varint_loop zero value = value % 256 ∷ []
write_varint_loop (suc fuel) value =
    let more = bit_or (value % 2 ^ 7) 0x80 % 256 ∷ write_varint_loop fuel (value / 2 ^ 7) in
    if leb 0x80 value then more else value % 256 ∷ []

-- A 64-bit value takes nine rounds at most.
unfoldable pub write_varint : ℕ → Bytes
unfolding write_varint_loop
write_varint value = write_varint_loop 9 value

unfoldable pub write_tag : ℕ → ℕ → Bytes
unfolding make_tag write_varint
write_tag field_number wire = write_varint (make_tag field_number wire)

unfoldable pub write_uint64_field : ℕ → ℕ → Bytes
unfolding write_tag write_varint
write_uint64_field field_number value =
    if value == 0 then [] else write_tag field_number varint ++ write_varint value

-- A 32-bit value is a 64-bit one here: the two methods differ in the parameter's type alone.
unfoldable pub write_uint32_field : ℕ → ℕ → Bytes
unfolding write_tag write_varint
write_uint32_field field_number value =
    if value == 0 then [] else write_tag field_number varint ++ write_varint value

-- An `std::int32_t` is its bit pattern, below 2 ^ 32; this is the pattern of the same number on
-- 64 bits.
unfoldable pub sign_extend : ℕ → ℕ
sign_extend value = if ltb value (2 ^ 31) then value else value + (2 ^ 64 - 2 ^ 32)

unfoldable pub write_int32_field : ℕ → ℕ → Bytes
unfolding write_tag write_varint sign_extend
write_int32_field field_number value =
    if value == 0 then [] else write_tag field_number varint ++ write_varint (sign_extend value)

unfoldable pub write_bool_field : ℕ → Bool → Bytes
unfolding write_tag write_varint
write_bool_field field_number value =
    if value then write_tag field_number varint ++ write_varint 1 else []

unfoldable pub write_enum_field : ℕ → ℕ → Bytes
unfolding write_int32_field
write_enum_field field_number value = write_int32_field field_number value

unfoldable pub write_sub_message_field : ℕ → Bytes → Bytes
unfolding write_tag write_varint
write_sub_message_field field_number sub =
    write_tag field_number length_delim ++ (write_varint (length sub) ++ sub)

unfoldable pub write_bytes_field : ℕ → Bytes → Bytes
unfolding write_tag write_varint
write_bytes_field field_number value =
    if is_empty value
    then []
    else write_tag field_number length_delim ++ (write_varint (length value) ++ value)

unfoldable pub write_string_field : ℕ → Bytes → Bytes
unfolding write_tag write_varint
write_string_field field_number value =
    if is_empty value
    then []
    else write_tag field_number length_delim ++ (write_varint (length value) ++ value)

-- The shifted group keeps its low 64 bits.
unfoldable pub read_varint_loop : Bytes → ℕ → ℕ → Parse (ℕ × Bytes)
read_varint_loop [] out shift = malformed
read_varint_loop (b ∷ rest) out shift =
    let out' = bit_or out (b % 2 ^ 7 * 2 ^ shift % 2 ^ 64) in
    let more = read_varint_loop rest out' (shift + 7) in
    if b / 2 ^ 7 % 2 == 0
    then parsed (out', rest)
    else if ltb 63 (shift + 7)
    then malformed
    else more

unfoldable pub read_varint : Bytes → Parse (ℕ × Bytes)
unfolding read_varint_loop
read_varint r = read_varint_loop r 0 0

-- The field number and the wire type.
unfoldable pub read_tag : Bytes → Parse (ℕ × ℕ × Bytes)
unfolding read_varint
read_tag r = do (tag, r') ← read_varint r; parsed (tag / 2 ^ 3 % 2 ^ 32, tag % 2 ^ 3, r')

unfoldable pub read_length_delim : Bytes → Parse (Bytes × Bytes)
unfolding read_varint
read_length_delim r = do
  (len, r') ← read_varint r
  if ltb (length r') len then malformed else parsed (take len r', drop len r')

unfoldable pub skip_field : ℕ → Bytes → Parse Bytes
unfolding read_varint read_length_delim
skip_field wire r =
    if wire == varint
    then (do (_, r') ← read_varint r; parsed r')
    else if wire == fixed64
    then (if ltb (length r) 8 then malformed else parsed (drop 8 r))
    else if wire == length_delim
    then (do (_, r') ← read_length_delim r; parsed r')
    else if wire == fixed32
    then (if ltb (length r) 4 then malformed else parsed (drop 4 r))
    else malformed

-- The loop `while (!r.eof()) { ReadTag; ... }` of every parser of the codecs; `step` is the rest of
-- the body, by field number and wire type, over the values filled in so far. The fuel is the rounds
-- left: each round takes a byte at least, so the length of the input is enough.
unfoldable pub parse_loop :
    {S : Type 0} → (ℕ → ℕ → S → Bytes → Parse (S × Bytes)) → ℕ → S → Bytes → Parse S
unfolding read_tag
parse_loop step fuel s [] = parsed s
parse_loop step zero s (b ∷ r) = stuck
parse_loop step (suc fuel) s (b ∷ r) = do
  (field, wire, r') ← read_tag (b ∷ r)
  (s', r'') ← step field wire s r'
  parse_loop step fuel s' r''

-- The loop over a whole input.
unfoldable pub parse_fields :
    {S : Type 0} → (ℕ → ℕ → S → Bytes → Parse (S × Bytes)) → S → Bytes → Parse S
unfolding parse_loop
parse_fields step s r = parse_loop step (length r) s r
