-- ===== src/Wire/Fields.antt =====
-- Each field method of the Writer writes at most one field, and none for proto3's default value.
use clipboard_helper.Prelude.{
  ℕ, suc, ◌+◌, ◌^◌, ◌≤◌, ◌<◌, ◌≡◌, refl, sym, Bool, true, false, List, [], ◌∷◌, ◌++◌, arith, ◌==◌,
  if◌then◌else◌, Bytes, All, is_empty, Bool-cases, inl, inr, length, length-append, append_assoc,
  append-nil,
}
use mathlib.Core.List.{foldl}
use clipboard_helper.Wire.{
  varint, length_delim, write_tag, write_varint, sign_extend, write_uint32_field,
  write_uint64_field, write_enum_field, write_bool_field, write_string_field, write_bytes_field,
  write_sub_message_field, make_tag,
}
use clipboard_helper.Wire.Varint.{length-write_varint}
use clipboard_helper.Wire.Entries.{int, chunk, Entry}
use clipboard_helper.Wire.Written.{write_entry, write_entries, IsWritable}

-- A number field; 0 is not written.
abbrev pub int_entries : ℕ → ℕ → List Entry
int_entries n v = if v == 0 then [] else (n, int v) ∷ []

-- A string or bytes field; the empty one is not written.
abbrev pub chunk_entries : ℕ → Bytes → List Entry
chunk_entries n s = if is_empty s then [] else (n, chunk s) ∷ []

pub write_entries-append :
    (xs ys : List Entry) → write_entries (xs ++ ys) ≡ write_entries xs ++ write_entries ys
write_entries-append [] ys = refl
write_entries-append (x ∷ xs) ys =
    rw (
      write_entries-append xs ys,
      append_assoc (write_entry x) (write_entries xs) (write_entries ys),
    )

sign_extend_test : (v : ℕ) → (sign_extend v == 0) ≡ (v == 0)
unfolding sign_extend
sign_extend_test v = ground arith

module _ (n : ℕ) where
  pub write_uint64_field-entries :
      (v : ℕ) → write_uint64_field n v ≡ write_entries (int_entries n v)
  unfolding write_uint64_field
  write_uint64_field-entries v = ground (arith, append-nil (write_tag n varint ++ write_varint v))

  pub write_uint32_field-entries :
      (v : ℕ) → write_uint32_field n v ≡ write_entries (int_entries n v)
  unfolding write_uint32_field
  write_uint32_field-entries v = ground (arith, append-nil (write_tag n varint ++ write_varint v))

  pub write_enum_field-entries :
      (v : ℕ) → write_enum_field n v ≡ write_entries (int_entries n (sign_extend v))
  unfolding write_enum_field
  write_enum_field-entries v = elim (Bool-cases (v == 0)) [
    | inl z ↦ rw (sign_extend_test v, z)
    | inr z ↦ rw (sign_extend_test v, z) (sym (append-nil _))
  ]

  pub write_bool_field-entries :
      (v : Bool) → write_bool_field n v ≡ write_entries (int_entries n (if v then 1 else 0))
  unfolding write_bool_field
  write_bool_field-entries true = sym (append-nil (write_tag n varint ++ write_varint 1))
  write_bool_field-entries false = refl

  pub write_string_field-entries :
      (s : Bytes) → write_string_field n s ≡ write_entries (chunk_entries n s)
  unfolding write_string_field
  write_string_field-entries [] = refl
  write_string_field-entries (c ∷ s) = sym (append-nil _)

  pub write_bytes_field-entries :
      (s : Bytes) → write_bytes_field n s ≡ write_entries (chunk_entries n s)
  unfolding write_bytes_field
  write_bytes_field-entries [] = refl
  write_bytes_field-entries (c ∷ s) = sym (append-nil _)

  -- A sub-message is written even when it is empty.
  pub write_sub_message_field-entries :
      (s : Bytes) → write_sub_message_field n s ≡ write_entries ((n, chunk s) ∷ [])
  unfolding write_sub_message_field
  write_sub_message_field-entries s = sym (append-nil _)

-- A caller that tests for the empty string itself writes the same.
pub guarded-write_string_field :
    (n : ℕ) (s : Bytes)
    → (if is_empty s then [] else write_string_field n s) ≡ write_entries (chunk_entries n s)
guarded-write_string_field n [] = refl
guarded-write_string_field n (c ∷ s) = write_string_field-entries n (c ∷ s)

pub guarded-write_bytes_field :
    (n : ℕ) (s : Bytes)
    → (if is_empty s then [] else write_bytes_field n s) ≡ write_entries (chunk_entries n s)
guarded-write_bytes_field n [] = refl
guarded-write_bytes_field n (c ∷ s) = write_bytes_field-entries n (c ∷ s)

pub int_entries-IsWritable : (n v : ℕ) → n < 2 ^ 29 → v < 2 ^ 64 → All IsWritable (int_entries n v)
int_entries-IsWritable n v hn hv = ground arith

pub chunk_entries-IsWritable :
    (n : ℕ) (s : Bytes) → n < 2 ^ 29 → length s < 2 ^ 64 → All IsWritable (chunk_entries n s)
chunk_entries-IsWritable n [] hn hs = tt
chunk_entries-IsWritable n (c ∷ s) hn hs = ((hn, hs), tt)

-- What a field costs beside its payload.
length-write_tag : (n w : ℕ) → length (write_tag n w) ≤ 10
unfolding write_tag
length-write_tag n w = length-write_varint (make_tag n w)

pub length-chunk_entries :
    (n : ℕ) (s : Bytes) → length (write_entries (chunk_entries n s)) ≤ length s + 20
length-chunk_entries n [] = omega arith
length-chunk_entries n (c ∷ s) = omega (
  arith,
  length-append (write_entry (n, chunk (c ∷ s))) [],
  length-append (write_tag n length_delim) (write_varint (suc (length s)) ++ c ∷ s),
  length-append (write_varint (suc (length s))) (c ∷ s),
  length-write_tag n length_delim,
  length-write_varint (suc (length s)),
)

pub length-int_entries : (n v : ℕ) → length (write_entries (int_entries n v)) ≤ 20
length-int_entries n v = elim (Bool-cases (v == 0)) [
  | inl z ↦ rw z (omega arith)
  | inr z ↦ rw z (
      omega (
        arith,
        length-append (write_entry (n, int v)) [],
        length-append (write_tag n varint) (write_varint v),
        length-write_tag n varint,
        length-write_varint v,
      ))
]

pub sign_extend-lt : (v : ℕ) → v < 2 ^ 32 → sign_extend v < 2 ^ 64
unfolding sign_extend
sign_extend-lt v h = ground arith

-- A non-negative enumeration value is written as it is.
pub write_enum_field_small :
    (n v : ℕ) → v < 2 ^ 31 → write_enum_field n v ≡ write_entries (int_entries n v)
write_enum_field_small n v h = let e = sign_extend_small v h in rw (write_enum_field-entries n v, e)
  where
    sign_extend_small : (v : ℕ) → v < 2 ^ 31 → sign_extend v ≡ v
    sign_extend_small v h = unfold sign_extend in ground arith

-- Folding an update over an optional field, where the update at the field's default changes nothing.
module _ {S : Type 0} (update : S → Entry → S) (n : ℕ) where
  pub fold_chunk :
      (x : S) (s : Bytes)
      → update x (n, chunk []) ≡ x
      → foldl update x (chunk_entries n s) ≡ update x (n, chunk s)
  fold_chunk x [] h = sym h
  fold_chunk x (c ∷ s) h = refl

  pub fold_int :
      (x : S) (v : ℕ)
      → update x (n, int 0) ≡ x
      → foldl update x (int_entries n v) ≡ update x (n, int v)
  fold_int x v h = elim (Bool-cases (v == 0)) [ inl z ↦ rw (z, ==→eq v z) (sym h) | inr z ↦ rw z ]
    where
      ==→eq : (v : ℕ) → (v == 0) ≡ true → v ≡ 0
      ==→eq v z = ground arith

pub length-two_parts :
    (xs ys : List Entry) (n m : ℕ)
    → length (write_entries xs) ≤ n
    → length (write_entries ys) ≤ m
    → length (write_entries (xs ++ ys)) ≤ n + m
length-two_parts xs ys n m hx hy =
    rw (write_entries-append xs ys)
      (omega (arith, length-append (write_entries xs) (write_entries ys)))
