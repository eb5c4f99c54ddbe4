-- ===== src/Windows/Formats/Names.antt =====
-- windows/src/clipboard_format.cpp: cFileName of a slot.
use clipboard_helper.Prelude.{
  ℕ, zero, suc, ◌≤◌, ◌<◌, ◌≡◌, refl, ◌∙◌, Bool, true, false, not, ◌&&◌, [], ◌∷◌, ltb, leb,
  if◌then◌else◌, arith, length, take, inl, inr, Bool-cases, length-take, take_all, ltb→lt, ltb→le,
  if-cases,
}
use clipboard_helper.Windows.Codec.Files.{Wide}
use clipboard_helper.Windows.Formats.{unit_before, is_high_surrogate, name_copy, backslashes}

abbrev pub is_low_surrogate : ℕ → Bool
is_low_surrogate c = leb 0xDC00 c && leb c 0xDFFF

-- UTF-16: a high surrogate stands before a low one, a low one behind a high one. The argument is
-- whether a high one has just been read.
abbrev pub is_utf16 : Bool → Wide → Bool
is_utf16 pending [] = not pending
is_utf16 true (c ∷ s) = is_low_surrogate c && is_utf16 false s
is_utf16 false (c ∷ s) = not (is_low_surrogate c) && is_utf16 (is_high_surrogate c) s

-- The units that are kept at a cut behind `suc n` of them.
abbrev kept : ℕ → Wide → Wide
kept n s = if is_high_surrogate (unit_before (suc n) s) then take n s else take (suc n) s

kept-eq :
    (k : ℕ) (s : Wide)
    → take (if is_high_surrogate (unit_before (suc k) s) then k else suc k) s ≡ kept k s
kept-eq k s = elim (Bool-cases (is_high_surrogate (unit_before (suc k) s))) [
  | inl e ↦ rw e refl
  | inr e ↦ rw e refl
]

kept-cons : (n : ℕ) (c : ℕ) (s : Wide) → suc n ≤ length s → kept (suc n) (c ∷ s) ≡ c ∷ kept n s
unfolding unit_before
kept-cons n c [] h = absurd (omega arith)
kept-cons n c (d ∷ s) h = ground arith

cut-is_utf16 :
    (pending : Bool) (n : ℕ) (s : Wide)
    → suc n ≤ length s
    → is_utf16 pending s ≡ true
    → is_utf16 pending (kept n s) ≡ true
cut-is_utf16 pending n [] h u = absurd (omega arith)
cut-is_utf16 true zero (c ∷ s) h u = unfold unit_before in ground arith
cut-is_utf16 false zero (c ∷ s) h u = unfold unit_before in ground arith
cut-is_utf16 true (suc n) (c ∷ s) h u =
    rw (kept-cons n c s (omega arith))
      (ground (arith, cut-is_utf16 false n s (omega arith) (ground arith)))
cut-is_utf16 false (suc n) (c ∷ s) h u =
    rw (kept-cons n c s (omega arith))
      (ground (arith, cut-is_utf16 (is_high_surrogate c) n s (omega arith) (ground arith)))

slash-is_utf16 : (pending : Bool) (s : Wide) → is_utf16 pending (backslashes s) ≡ is_utf16 pending s
unfolding backslashes
slash-is_utf16 pending [] = refl
slash-is_utf16 true (c ∷ s) = ground (arith, slash-is_utf16 false s)
slash-is_utf16 false (c ∷ s) = ground (arith, slash-is_utf16 false s, slash-is_utf16 true s)

-- The name of a slot, behind the cut and with backslashes.
abbrev pub slot_name : Wide → Wide
slot_name n = backslashes (take (name_copy n) n)

pub length-backslashes : (s : Wide) → length (backslashes s) ≡ length s
unfolding backslashes
length-backslashes [] = refl
length-backslashes (c ∷ s) = omega (arith, length-backslashes s)

-- A name of UTF-16, of any length, stands in its slot as UTF-16, without half of a surrogate pair, and
-- leaves room for the NUL in the 260 units of the slot.
pub slot_name-is_utf16 :
    (n : Wide)
    → is_utf16 false n ≡ true
    → (is_utf16 false (slot_name n) ≡ true) × (length (slot_name n) < 260)
unfolding name_copy
slot_name-is_utf16 n u = elim (Bool-cases (ltb 259 (length n))) [
  | inl long ↦
      let k : ℕ = if is_high_surrogate (unit_before 259 n) then 258 else 259 in
      let same : take k n ≡ kept 258 n = kept-eq 258 n in
      let short : k < 260 =
        if-cases (λ (j : ℕ). j < 260) (is_high_surrogate (unit_before 259 n)) (λ _. omega arith)
          (λ _. omega arith) in
      rw long (
        slash-is_utf16 false (take k n)
            ∙ rw same (cut-is_utf16 false 258 n (omega (arith, ltb→lt 259 (length n) long)) u),
        omega (arith, length-backslashes (take k n), length-take k n, short),
      )
  | inr fits ↦
      let all : take (length n) n ≡ n = take_all (length n) n (omega arith) in
      rw (fits, all)
        (
          slash-is_utf16 false n ∙ u,
          omega (arith, length-backslashes n, ltb→le 259 (length n) fits),
        )
]
