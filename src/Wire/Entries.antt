-- ===== src/Wire/Entries.antt =====
-- The abstract view of a message: its fields in order, each with its number and its payload. The
-- parsers of the codecs are shown to be folds over this view.
use mathlib.Core.List.{foldl, foldl-append}
use clipboard_helper.Prelude.{
  ℕ, zero, suc, ◌≤◌, ◌≡◌, refl, sym, ◌∙◌, ◌≢◌, List, [], ◌∷◌, ◌++◌, arith, ltb, ◌==◌, if◌then◌else◌,
  Bytes, Bool-cases, inl, inr, length, drop, length-drop,
}
use clipboard_helper.Prelude.Parse.{
  Parse, parsed, malformed, stuck, ◌>>=◌, >>=-congr, Ends, Ends-bind, Ends-if,
}
use clipboard_helper.Wire.{
  varint, fixed64, length_delim, fixed32, read_varint, read_length_delim, read_tag, parse_loop,
  parse_fields,
}
use clipboard_helper.Wire.Tags.{read_varint-Ends, read_tag-Ends, read_length_delim-Ends}

-- The value of a fixed-width field is passed over.
pub data Payload : Type 0 where
  int : ℕ → Payload
  chunk : Bytes → Payload
  passed : Payload

abbrev pub Entry : Type 0
Entry = ℕ × Payload

-- The payload behind a tag of this wire type.
unfoldable pub read_payload : ℕ → Bytes → Parse (Payload × Bytes)
read_payload wire r =
    if wire == varint
    then (do (v, r') ← read_varint r; parsed (int v, r'))
    else if wire == length_delim
    then (do (s, r') ← read_length_delim r; parsed (chunk s, r'))
    else if wire == fixed64
    then (if ltb (length r) 8 then malformed else parsed (passed, drop 8 r))
    else if wire == fixed32
    then (if ltb (length r) 4 then malformed else parsed (passed, drop 4 r))
    else malformed

unfoldable pub add_entry : ℕ → ℕ → List Entry → Bytes → Parse (List Entry × Bytes)
unfolding read_payload
add_entry field wire es r = do (p, r') ← read_payload wire r; parsed (es ++ (field, p) ∷ [], r')

-- The fields of a message.
unfoldable pub entries : Bytes → Parse (List Entry)
unfolding add_entry
entries r = parse_fields add_entry [] r

-- A parser's step agrees with a pure update by the field that the step stands at.
abbrev pub Refines :
    {S : Type 0} → (ℕ → ℕ → S → Bytes → Parse (S × Bytes)) → (S → Entry → S) → Type 0
Refines {S} step update =
    (field wire : ℕ) (s : S) (r : Bytes)
    → step field wire s r ≡ (read_payload wire r >>= λ (p, r'). parsed (update s (field, p), r'))

abbrev pub fold_entries : {S : Type 0} → (S → Entry → S) → S → Parse (List Entry) → Parse S
fold_entries update s (parsed es) = parsed (foldl update s es)
fold_entries update s malformed = malformed
fold_entries update s stuck = stuck

module _ {S : Type 0} (update : S → Entry → S) where
  fold_entries-bind :
      {A : Type 0} (s : S) (m : Parse A) (g : A → Parse (List Entry))
      → fold_entries update s (m >>= g) ≡ (m >>= λ a. fold_entries update s (g a))
  fold_entries-bind s (parsed a) g = refl
  fold_entries-bind s malformed g = refl
  fold_entries-bind s stuck g = refl

  -- One round of a parser beside one round of the reading of fields.
  round :
      (s : S) (es : List Entry) (field : ℕ) (q : Parse (Payload × Bytes)) (k : S → Bytes → Parse S)
      (k' : List Entry → Bytes → Parse (List Entry))
      → ((p : Payload) (r : Bytes)
          → k (update (foldl update s es) (field, p)) r
            ≡ fold_entries update s (k' (es ++ (field, p) ∷ []) r))
      → (q
          >>= (λ (p, r). parsed (update (foldl update s es) (field, p), r))
          >>= (λ (s', r). k s' r))
        ≡ fold_entries update s
            (q >>= (λ (p, r). parsed (es ++ (field, p) ∷ [], r)) >>= (λ (es', r). k' es' r))
  round s es field (parsed (p, r)) k k' h = h p r
  round s es field malformed k k' h = refl
  round s es field stuck k k' h = refl

  module _ (step : ℕ → ℕ → S → Bytes → Parse (S × Bytes)) (law : Refines step update) where
    loop_refines :
        (fuel : ℕ) (s : S) (es : List Entry) (r : Bytes)
        → parse_loop step fuel (foldl update s es) r
          ≡ fold_entries update s (parse_loop add_entry fuel es r)
    unfolding parse_loop add_entry
    loop_refines fuel s es [] = refl
    loop_refines zero s es (b ∷ r) = refl
    loop_refines (suc fuel) s es (b ∷ r) =
        >>=-congr (read_tag (b ∷ r)) _ _ (λ (field, wire, r').
          rw (law field wire (foldl update s es) r') (
            round s es field (read_payload wire r') (λ s' r''. parse_loop step fuel s' r'')
              (λ es' r''. parse_loop add_entry fuel es' r'')
              λ p r''.
                rw (foldl-append update s es ((field, p) ∷ [])) at
                  (loop_refines fuel s (es ++ (field, p) ∷ []) r'')))
        ∙ sym (fold_entries-bind s (read_tag (b ∷ r)) _)

    -- A parser whose step refines an update is the fold of the update over the message's fields;
    -- it fails exactly where the fields cannot be read.
    pub parse_fields-entries :
        (s : S) (r : Bytes) → parse_fields step s r ≡ fold_entries update s (entries r)
    unfolding parse_fields entries
    parse_fields-entries s r = loop_refines (length r) s [] r

read_payload-Ends :
    (wire : ℕ) (r : Bytes) → Ends (λ (_, r'). length r' ≤ length r) (read_payload wire r)
unfolding read_payload
read_payload-Ends wire r = elim (Bool-cases (wire == varint)) [
  | inl v ↦ rw v (Ends-bind _ Le (read_varint r) _ (read_varint-Ends r) (λ a h. omega arith))
  | inr v ↦ rw v (elim (Bool-cases (wire == length_delim)) [
    | inl d ↦
        rw d
          (Ends-bind _ Le (read_length_delim r) _ (read_length_delim-Ends r) (λ a h. omega arith))
    | inr d ↦ rw d (
        Ends-if Le (wire == fixed64) _ _
          (λ _.
            Ends-if Le (ltb (length r) 8) malformed _ (λ _. tt)
              (λ _. omega (arith, length-drop 8 r)))
          (λ _.
            Ends-if Le (wire == fixed32) _ malformed
              (λ _.
                Ends-if Le (ltb (length r) 4) malformed _ (λ _. tt)
                  (λ _. omega (arith, length-drop 4 r)))
              (λ _. tt)))
  ])
]
  where
    Le : Payload × Bytes → Type 0
    Le (_, r') = length r' ≤ length r

add_entry-Ends :
    (field wire : ℕ) (es : List Entry) (r : Bytes)
    → Ends (λ (_, r'). length r' ≤ length r) (add_entry field wire es r)
unfolding add_entry
add_entry-Ends field wire es r =
    Ends-bind _ _ (read_payload wire r) _ (read_payload-Ends wire r) (λ a h. h)

entries_loop-Ends :
    (fuel : ℕ) (es : List Entry) (r : Bytes)
    → length r ≤ fuel
    → Ends (λ _. Unit {0}) (parse_loop add_entry fuel es r)
unfolding parse_loop
entries_loop-Ends fuel es [] h = tt
entries_loop-Ends zero es (b ∷ r) h = absurd (omega arith)
entries_loop-Ends (suc fuel) es (b ∷ r) h =
    Ends-bind _ _ (read_tag (b ∷ r)) _ (read_tag-Ends (b ∷ r)) λ (field, wire, r') shorter.
      Ends-bind _ _ (add_entry field wire es r') _ (add_entry-Ends field wire es r')
        λ (es', r'') le. entries_loop-Ends fuel es' r'' (omega arith)

entries_end : (r : Bytes) → Ends (λ _. Unit {0}) (entries r)
unfolding entries parse_fields
entries_end r = entries_loop-Ends (length r) [] r (omega arith)

module _ {S : Type 0} (step : ℕ → ℕ → S → Bytes → Parse (S × Bytes)) (update : S → Entry → S) where
  -- The loop over a whole input ends by `eof` or by a failed read: the fuel is enough.
  pub parse_fields-ne-stuck :
      Refines step update → (s : S) (r : Bytes) → parse_fields step s r ≢ stuck
  parse_fields-ne-stuck law s r =
      rw (parse_fields-entries update step law s r) (folds (entries r) (entries_end r))
    where
      folds : (m : Parse (List Entry)) → Ends (λ _. Unit {0}) m → fold_entries update s m ≢ stuck
      folds (parsed es) h e = cc
      folds malformed h e = cc
      folds stuck h e = absurd h
