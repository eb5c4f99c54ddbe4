-- ===== src/Wire/Tags.antt =====
-- Tags and length-delimited payloads: round trips, and how far each read moves.
use clipboard_helper.Prelude.{
  ℕ, ◌+◌, ◌*◌, ◌/◌, ◌%◌, ◌^◌, ◌<◌, ◌≡◌, [], ◌∷◌, ◌++◌, arith, bit_or, bit_or_fields, ltb, ◌==◌,
  if◌then◌else◌, Bytes, length, length-append, length-drop, take-append, drop-append, le→ltb,
}
use clipboard_helper.Prelude.Parse.{parsed, malformed, Ends, Ends-bind, Ends-if, Ends-weaken}
use clipboard_helper.Wire.{
  make_tag, write_tag, write_varint, read_varint_loop, read_varint, read_tag, read_length_delim,
}
use clipboard_helper.Wire.Varint.{read_varint-write_varint, length-write_varint_pos}

make_tag_sum : (n w : ℕ) → n < 2 ^ 29 → w < 2 ^ 3 → make_tag n w ≡ n * 2 ^ 3 + w
unfolding make_tag
make_tag_sum n w hn hw =
    let e : n * 2 ^ 3 % 2 ^ 32 ≡ n * 2 ^ 3 = omega arith in rw e (bit_or_fields 3 n w hw)

-- A tag reads back as its field number and wire type.
pub read_tag-write_tag :
    (n w : ℕ) (rest : Bytes)
    → n < 2 ^ 29
    → w < 2 ^ 3
    → read_tag (write_tag n w ++ rest) ≡ parsed (n, w, rest)
unfolding read_tag write_tag
read_tag-write_tag n w rest hn hw =
    let e = make_tag_sum n w hn hw in
    rw (read_varint-write_varint (make_tag n w) rest (omega (arith, e)), e) (ground arith)

-- A payload behind its length reads back, and the reader stops behind it.
pub read_length_delim-append :
    (s rest : Bytes)
    → length s < 2 ^ 64
    → read_length_delim (write_varint (length s) ++ (s ++ rest)) ≡ parsed (s, rest)
unfolding read_length_delim
read_length_delim-append s rest h = rw (
  read_varint-write_varint (length s) (s ++ rest) h,
  le→ltb (length (s ++ rest)) (length s) (omega (arith, length-append s rest)),
  take-append s rest,
  drop-append s rest,
)

-- What a read leaves is shorter than what it had.
abbrev pub Shrinks : Bytes → ℕ × Bytes → Type 0
Shrinks r (_, r') = length r' < length r

read_varint_loop-Ends :
    (r : Bytes) (out shift : ℕ) → Ends (Shrinks r) (read_varint_loop r out shift)
unfolding read_varint_loop
read_varint_loop-Ends [] out shift = tt
read_varint_loop-Ends (b ∷ rest) out shift =
    let out' = bit_or out (b % 2 ^ 7 * 2 ^ shift % 2 ^ 64) in
    let more = read_varint_loop rest out' (shift + 7) in
    let ih =
      Ends-weaken (Shrinks rest) (Shrinks (b ∷ rest)) more
        (read_varint_loop-Ends rest out' (shift + 7)) (λ a h. omega arith) in
    let keep = ltb 63 (shift + 7) in
    Ends-if (Shrinks (b ∷ rest)) (b / 2 ^ 7 % 2 == 0) (parsed (out', rest))
      (if keep then malformed else more) (λ _. omega arith)
      (λ _. Ends-if (Shrinks (b ∷ rest)) keep malformed more (λ _. tt) (λ _. ih))

-- Every read returns or fails, and leaves fewer bytes than it had.
pub read_varint-Ends : (r : Bytes) → Ends (Shrinks r) (read_varint r)
unfolding read_varint
read_varint-Ends r = read_varint_loop-Ends r 0 0

pub read_tag-Ends : (r : Bytes) → Ends (λ (_, _, r'). length r' < length r) (read_tag r)
unfolding read_tag
read_tag-Ends r = Ends-bind (Shrinks r) _ (read_varint r) _ (read_varint-Ends r) (λ a h. h)

pub read_length_delim-Ends :
    (r : Bytes) → Ends (λ (_, r'). length r' < length r) (read_length_delim r)
unfolding read_length_delim
read_length_delim-Ends r = Ends-bind (Shrinks r) _ (read_varint r) _ (read_varint-Ends r) λ a h.
    Ends-if _ (ltb (length a.1) a.0) malformed _ (λ _. tt) (λ _. omega (arith, length-drop a.0 a.1))

pub length-write_tag_pos : (n w : ℕ) → 0 < length (write_tag n w)
unfolding write_tag
length-write_tag_pos n w = length-write_varint_pos (make_tag n w)
