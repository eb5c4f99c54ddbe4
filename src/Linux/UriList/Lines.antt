-- ===== src/Linux/UriList/Lines.antt =====
-- The formats line by line, as a reader of newline-separated lists cuts them; and the path list that
-- the parent sends.
use clipboard_helper.Prelude.{
  ℕ, ◌/◌, ◌%◌, ◌≡◌, refl, sym, ap, ◌∙◌, inl, inr, true, false, List, [], ◌∷◌, ◌++◌, map,
  append_assoc, arith, ◌==◌, Bool-cases, Bytes, is_empty, All, All-append,
}
use clipboard_helper.Linux.UriList.{
  is_uri_path_safe, hex_digit, percent_encode_path, lines, strip_cr, push_lines, split_paths,
  make_file_uri, format_text_uri_list,
}

abbrev pub IsInLine : ℕ → Type 0
IsInLine c = (c == 0x0a) ≡ false

lines-newline : (a rest : Bytes) → All IsInLine a → lines (a ++ 0x0a ∷ rest) ≡ a ∷ lines rest
unfolding lines
lines-newline [] rest h = refl
lines-newline (c ∷ a) rest h = rw (h.0, lines-newline a rest h.1)

lines-last : (a : Bytes) → All IsInLine a → lines a ≡ a ∷ []
unfolding lines
lines-last [] h = refl
lines-last (c ∷ a) h = rw (h.0, lines-last a h.1)

strip_cr-cr : (a : Bytes) → strip_cr (a ++ 0x0d ∷ []) ≡ a
unfolding strip_cr
strip_cr-cr [] = refl
strip_cr-cr (c ∷ []) = refl
strip_cr-cr (c ∷ d ∷ a) = ap (λ t. c ∷ t) (strip_cr-cr (d ∷ a))

-- A string that SplitPaths pushes as it stands.
abbrev pub IsLine : Bytes → Type 0
IsLine a = All IsInLine a × (strip_cr a ≡ a) × (is_empty a ≡ false)

encoded-IsInLine : (path : Bytes) → All IsInLine (percent_encode_path path)
unfolding percent_encode_path
encoded-IsInLine [] = tt
encoded-IsInLine (c ∷ path) = elim (Bool-cases (is_uri_path_safe c)) [
  | inl safe ↦ rw safe (not_newline c safe, encoded-IsInLine path)
  | inr other ↦ rw other (refl, (digit (c / 16), (digit (c % 16), encoded-IsInLine path)))
]
  where
    not_newline : (c : ℕ) → is_uri_path_safe c ≡ true → IsInLine c
    not_newline c h = unfold is_uri_path_safe in ground arith

    digit : (n : ℕ) → IsInLine (hex_digit n)
    digit n = unfold hex_digit in ground arith

uri-IsInLine : (path : Bytes) → All IsInLine (make_file_uri path)
unfolding make_file_uri
uri-IsInLine path = (refl, (refl, (refl, (refl, (refl, (refl, (refl, encoded-IsInLine path)))))))

uri_cr-IsInLine : (path : Bytes) → All IsInLine (make_file_uri path ++ 0x0d ∷ [])
uri_cr-IsInLine path =
    All-append IsInLine (make_file_uri path) (0x0d ∷ []) (uri-IsInLine path) (refl, tt)

uri-is_empty : (path : Bytes) → is_empty (make_file_uri path) ≡ false
unfolding make_file_uri
uri-is_empty path = refl

-- The text/uri-list of any paths is their URIs, one on each line, every line ended by CRLF.
pub split_paths-format_text_uri_list :
    (paths : List Bytes) → split_paths (format_text_uri_list paths) ≡ map make_file_uri paths
unfolding split_paths format_text_uri_list push_lines
split_paths-format_text_uri_list [] = unfold lines strip_cr in refl
split_paths-format_text_uri_list (p ∷ paths) =
    let first =
      ap lines
        (sym (append_assoc (make_file_uri p) (0x0d ∷ []) (0x0a ∷ format_text_uri_list paths)))
      ∙ lines-newline (make_file_uri p ++ 0x0d ∷ []) (format_text_uri_list paths)
          (uri_cr-IsInLine p) in
    rw (first, push_lines, strip_cr-cr (make_file_uri p), uri-is_empty p)
      (ap (λ t. make_file_uri p ∷ t) (split_paths-format_text_uri_list paths))

-- Paths that are not empty, hold no newline and do not end in CR, joined by newlines.
abbrev pub join : Bytes → List Bytes → Bytes
join p [] = p
join p (q ∷ paths) = p ++ 0x0a ∷ join q paths

-- SplitPaths finds the paths that the parent joined by newlines.
pub split_paths-join :
    (p : Bytes) (paths : List Bytes)
    → IsLine p
    → All IsLine paths
    → split_paths (join p paths) ≡ p ∷ paths
unfolding split_paths push_lines
split_paths-join p [] h hs = rw (lines-last p h.0, h.1, h.2)
split_paths-join p (q ∷ paths) h hs =
    rw (lines-newline p (join q paths) h.0, push_lines, h.1, h.2)
      (ap (λ t. p ∷ t) (split_paths-join q paths hs.0 hs.1))
