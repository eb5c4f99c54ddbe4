-- ===== src/Wire/Written.antt =====
-- The fields that the Writer's methods append, and their reading back.
use clipboard_helper.Prelude.{
  ℕ, zero, suc, ◌^◌, ◌≤◌, ◌<◌, ◌≡◌, refl, ◌∙◌, List, [], ◌∷◌, ◌++◌, arith, Bytes, All, length,
  length-append, append_assoc, append-nil,
}
use clipboard_helper.Prelude.Parse.{Parse, parsed, malformed, stuck, ◌>>=◌}
use clipboard_helper.Wire.{
  varint, length_delim, write_tag, write_varint, read_tag, parse_loop, parse_fields,
}
use clipboard_helper.Wire.Varint.{read_varint-write_varint}
use clipboard_helper.Wire.Tags.{read_tag-write_tag, read_length_delim-append, length-write_tag_pos}
use clipboard_helper.Wire.Entries.{
  Payload, int, chunk, passed, Entry, read_payload, add_entry, entries,
}

-- What the Writer's methods append for a field with this payload.
abbrev pub write_entry : Entry → Bytes
write_entry (n, int v) = write_tag n varint ++ write_varint v
write_entry (n, chunk s) = write_tag n length_delim ++ (write_varint (length s) ++ s)
write_entry (n, passed) = []

abbrev pub write_entries : List Entry → Bytes
write_entries [] = []
write_entries (e ∷ es) = write_entry e ++ write_entries es

-- The field number fits a tag, the value or the length 64 bits.
abbrev pub IsWritable : Entry → Type 0
IsWritable (n, int v) = (n < 2 ^ 29) × (v < 2 ^ 64)
IsWritable (n, chunk s) = (n < 2 ^ 29) × (length s < 2 ^ 64)
IsWritable (n, passed) = ⊥

parse_loop-cons :
    {S : Type 0} (step : ℕ → ℕ → S → Bytes → Parse (S × Bytes)) (fuel : ℕ) (s : S) (r : Bytes)
    → 0 < length r
    → parse_loop step (suc fuel) s r ≡ (
        read_tag r >>= λ (field, wire, r').
        step field wire s r' >>= λ (s', r''). parse_loop step fuel s' r'')
unfolding parse_loop
parse_loop-cons step fuel s [] h = absurd (omega arith)
parse_loop-cons step fuel s (b ∷ r) h = refl

length-write_entry_pos : (e : Entry) → IsWritable e → 0 < length (write_entry e)
length-write_entry_pos (n, int v) h =
    omega
      (arith, length-append (write_tag n varint) (write_varint v), length-write_tag_pos n varint)
length-write_entry_pos (n, chunk s) h = omega (
  arith,
  length-append (write_tag n length_delim) (write_varint (length s) ++ s),
  length-write_tag_pos n length_delim,
)
length-write_entry_pos (n, passed) h = absurd h

-- The field whose tag was read.
abbrev tagged : ℕ → Parse (Payload × Bytes) → Parse (Entry × Bytes)
tagged field q = do (p, r) ← q; parsed ((field, p), r)

abbrev with_payload : Parse (ℕ × ℕ × Bytes) → Parse (Entry × Bytes)
with_payload m = do (field, wire, r) ← m; tagged field (read_payload wire r)

-- Behind its tag a payload reads back.
read_entry :
    (e : Entry) (rest : Bytes)
    → IsWritable e
    → with_payload (read_tag (write_entry e ++ rest)) ≡ parsed (e, rest)
unfolding read_payload
read_entry (n, int v) rest (hn, hv) = rw (
  append_assoc (write_tag n varint) (write_varint v) rest,
  read_tag-write_tag n varint (write_varint v ++ rest) hn (omega arith),
  read_varint-write_varint v rest hv,
)
read_entry (n, chunk s) rest (hn, hs) = rw (
  append_assoc (write_tag n length_delim) (write_varint (length s) ++ s) rest,
  append_assoc (write_varint (length s)) s rest,
  read_tag-write_tag n length_delim (write_varint (length s) ++ (s ++ rest)) hn (omega arith),
  read_length_delim-append s rest hs,
)
read_entry (n, passed) rest h = absurd h

module _ (fuel : ℕ) (es : List Entry) (e : Entry) (rest : Bytes) where
  abbrev next : List Entry × Bytes → Parse (List Entry)
  next (es', r) = parse_loop add_entry fuel es' r

  after_payload :
      (field : ℕ) (q : Parse (Payload × Bytes))
      → tagged field q ≡ parsed (e, rest)
      → (q >>= (λ (p, r). parsed (es ++ (field, p) ∷ [], r)) >>= next) ≡ next (es ++ e ∷ [], rest)
  after_payload field (parsed (p, r)) eq = cc
  after_payload field malformed eq = cc
  after_payload field stuck eq = cc

  after_tag :
      (m : Parse (ℕ × ℕ × Bytes))
      → with_payload m ≡ parsed (e, rest)
      → (m >>= λ (field, wire, r). add_entry field wire es r >>= next) ≡ next (es ++ e ∷ [], rest)
  unfolding add_entry
  after_tag (parsed (field, wire, r)) eq = after_payload field (read_payload wire r) eq
  after_tag malformed eq = cc
  after_tag stuck eq = cc

  parse_loop-write_entry :
      IsWritable e
      → parse_loop add_entry (suc fuel) es (write_entry e ++ rest)
        ≡ parse_loop add_entry fuel (es ++ e ∷ []) rest
  parse_loop-write_entry h =
      parse_loop-cons add_entry fuel es (write_entry e ++ rest)
        (omega (arith, length-append (write_entry e) rest, length-write_entry_pos e h))
      ∙ after_tag (read_tag (write_entry e ++ rest)) (read_entry e rest h)

parse_loop-write_entries :
    (fs es : List Entry) (fuel : ℕ)
    → All IsWritable fs
    → length (write_entries fs) ≤ fuel
    → parse_loop add_entry fuel es (write_entries fs) ≡ parsed (es ++ fs)
unfolding parse_loop
parse_loop-write_entries [] es fuel h le = rw (append-nil es)
parse_loop-write_entries (e ∷ fs) es zero h le =
    absurd (
      omega (arith, length-append (write_entry e) (write_entries fs), length-write_entry_pos e h.0))
parse_loop-write_entries (e ∷ fs) es (suc fuel) h le =
    parse_loop-write_entry fuel es e (write_entries fs) h.0
    ∙ parse_loop-write_entries fs (es ++ e ∷ []) fuel h.1 (
        omega
          (arith, length-append (write_entry e) (write_entries fs), length-write_entry_pos e h.0))
    ∙ rw (append_assoc es (e ∷ []) fs)

-- The fields that were written are the fields of the message, in their order.
pub entries-write_entries :
    (fs : List Entry) → All IsWritable fs → entries (write_entries fs) ≡ parsed fs
unfolding entries parse_fields
entries-write_entries fs h =
    parse_loop-write_entries fs [] (length (write_entries fs)) h (omega arith)
