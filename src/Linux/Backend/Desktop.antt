-- ===== src/Linux/Backend/Desktop.antt =====
-- linux/src/backend_detector.cpp: the desktop tokens.
use clipboard_helper.Prelude.{
  ℕ, ◌≡◌, refl, ap, inl, inr, Bool, true, false, ◌||◌, List, [], ◌∷◌, ◌++◌, map, arith, ◌==◌,
  Bool-cases, Bytes,
}
use clipboard_helper.Linux.Backend.{
  to_upper, split_loop, split_and_upper, is_gnome_token, has_gnome_token, is_gnome_desktop,
}

split_loop-colon :
    (token a b : Bytes) → split_loop token (a ++ b':' ∷ b) ≡ split_loop token a ++ split_loop [] b
unfolding split_loop
split_loop-colon [] [] b = refl
split_loop-colon (t ∷ token) [] b = refl
split_loop-colon [] (c ∷ a) b = elim (Bool-cases (c == b':')) [
  | inl e ↦ rw e (split_loop-colon [] a b)
  | inr e ↦ rw e (split_loop-colon (to_upper c ∷ []) a b)
]
split_loop-colon (t ∷ token) (c ∷ a) b = elim (Bool-cases (c == b':')) [
  | inl e ↦ rw e (ap (λ ts. (t ∷ token) ∷ ts) (split_loop-colon [] a b))
  | inr e ↦ rw e (split_loop-colon (t ∷ token ++ to_upper c ∷ []) a b)
]

has_gnome_token-append :
    (xs ys : List Bytes) → has_gnome_token (xs ++ ys) ≡ (has_gnome_token xs || has_gnome_token ys)
unfolding has_gnome_token
has_gnome_token-append [] ys = refl
has_gnome_token-append (x ∷ xs) ys =
    rw (has_gnome_token-append xs ys)
      (or_assoc (is_gnome_token x) (has_gnome_token xs) (has_gnome_token ys))
  where
    or_assoc : (a b c : Bool) → (a || (b || c)) ≡ ((a || b) || c)
    or_assoc true b c = refl
    or_assoc false b c = refl

-- A colon-separated list names GNOME exactly if a part of it does.
pub is_gnome_desktop-colon :
    (a b : Bytes) → is_gnome_desktop (a ++ b':' ∷ b) ≡ (is_gnome_desktop a || is_gnome_desktop b)
unfolding is_gnome_desktop split_and_upper
is_gnome_desktop-colon a b =
    rw (split_loop-colon [] a b) (has_gnome_token-append (split_loop [] a) (split_loop [] b))

to_upper_twice : (c : ℕ) → to_upper (to_upper c) ≡ to_upper c
unfolding to_upper
to_upper_twice c = ground arith

to_upper-colon : (c : ℕ) → (to_upper c == b':') ≡ (c == b':')
unfolding to_upper
to_upper-colon c = ground arith

split_loop-upper : (token s : Bytes) → split_loop token (map to_upper s) ≡ split_loop token s
unfolding split_loop
split_loop-upper token [] = refl
split_loop-upper token (c ∷ s) = rw (
  to_upper-colon c,
  to_upper_twice c,
  split_loop-upper [] s,
  split_loop-upper (token ++ to_upper c ∷ []) s,
)

-- The case of the letters does not matter.
pub is_gnome_desktop-upper : (s : Bytes) → is_gnome_desktop (map to_upper s) ≡ is_gnome_desktop s
unfolding is_gnome_desktop split_and_upper
is_gnome_desktop-upper s = rw (split_loop-upper [] s)
