-- ===== src/Windows/Formats/Hdrop.antt =====
-- windows/src/clipboard_format.cpp: BuildCfHdropPayload against the documented layout of CF_HDROP,
-- where the list starts at pFiles, each path ends with a NUL, and an empty path ends the list.
use clipboard_helper.Prelude.{
  ◌^◌, ◌<◌, ◌≡◌, ◌≢◌, refl, ◌∙◌, ap, false, List, [], ◌∷◌, ◌++◌, append_assoc, append-nil, ◌==◌,
  if◌then◌else◌, arith, Bytes, is_empty, drop, All, All-append,
}
use clipboard_helper.Windows.Codec.Files.{Wide}
use clipboard_helper.Windows.Formats.{hdrop_units, build_cf_hdrop_payload}
use clipboard_helper.Windows.Formats.Layout.{
  le32, zeros, read_le32, read_units, read_units-units_le,
}

-- The paths of a list; `path` is what has been read of the first.
unfoldable pub double_nul_list : Wide → Wide → List Wide
double_nul_list path [] = []
double_nul_list path (c ∷ s) =
    let rest = double_nul_list [] s in
    let more = double_nul_list (path ++ c ∷ []) s in
    if c == 0 then (if is_empty path then [] else path ∷ rest) else more

abbrev pub read_hdrop : Bytes → List Wide
read_hdrop base = double_nul_list [] (read_units (drop (read_le32 base) base))

-- A unit of a path is 16 bits and no NUL, and a path has one.
abbrev pub IsPath : Wide → Type 0
IsPath p = (p ≢ []) × All (λ c. (0 < c) × (c < 2 ^ 16)) p

append-ne-nil : (path p : Wide) → path ++ p ≢ [] → is_empty (path ++ p) ≡ false
append-ne-nil [] [] h = absurd (h refl)
append-ne-nil [] (c ∷ s) h = refl
append-ne-nil (c ∷ path) p h = refl

list-path :
    (path p rest : Wide)
    → All (λ c. (0 < c) × (c < 2 ^ 16)) p
    → path ++ p ≢ []
    → double_nul_list path (p ++ 0 ∷ rest) ≡ (path ++ p) ∷ double_nul_list [] rest
unfolding double_nul_list
list-path path [] rest h full =
    let e : is_empty path ≡ false = ground (arith, append-ne-nil path [] full, append-nil path) in
    rw (e, append-nil path) refl
list-path path (c ∷ p) rest (hc, hp) full =
    let n : (c == 0) ≡ false = ground arith in
    let regroup : (path ++ c ∷ []) ++ p ≡ path ++ (c ∷ p) = append_assoc path (c ∷ []) p in
    rw n (list-path (path ++ c ∷ []) p rest hp (rw regroup full) ∙ rw regroup refl)

list-hdrop_units :
    (paths : List Wide) → All IsPath paths → double_nul_list [] (hdrop_units paths) ≡ paths
unfolding hdrop_units
list-hdrop_units [] h = unfold double_nul_list in refl
list-hdrop_units (p ∷ paths) (hp, hs) =
    list-path [] p (hdrop_units paths) hp.1 hp.0 ∙ ap (λ t. p ∷ t) (list-hdrop_units paths hs)

units-IsUnit : (paths : List Wide) → All IsPath paths → All (λ c. c < 2 ^ 16) (hdrop_units paths)
unfolding hdrop_units
units-IsUnit [] h = (omega arith, tt)
units-IsUnit (p ∷ paths) (hp, hs) =
    All-append (λ c. c < 2 ^ 16) p (0 ∷ hdrop_units paths) (weaken p hp.1)
      (omega arith, units-IsUnit paths hs)
  where
    weaken : (s : Wide) → All (λ c. (0 < c) × (c < 2 ^ 16)) s → All (λ c. c < 2 ^ 16) s
    weaken [] h = tt
    weaken (c ∷ s) (hc, hs) = (hc.1, weaken s hs)

-- What BuildCfHdropPayload makes of some paths, none of them empty or with a NUL, reads by the layout
-- of CF_HDROP as those paths, in their order.
pub read_hdrop-build_cf_hdrop_payload :
    (p : Wide) (paths : List Wide)
    → All IsPath (p ∷ paths)
    → read_hdrop (build_cf_hdrop_payload (p ∷ paths)) ≡ p ∷ paths
unfolding build_cf_hdrop_payload le32 zeros read_le32
read_hdrop-build_cf_hdrop_payload p paths h =
    rw (read_units-units_le (hdrop_units (p ∷ paths)) (units-IsUnit (p ∷ paths) h))
      (list-hdrop_units (p ∷ paths) h)
