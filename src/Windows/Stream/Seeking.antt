-- ===== src/Windows/Stream/Seeking.antt =====
-- windows/src/virtual_file_provider.cpp: Seek against sums of integers.
use clipboard_helper.Prelude.{ℕ, ◌+◌, ◌^◌, ◌<◌, ◌≡◌, refl, sym, ◌∙◌, ◌↔◌, Option, none, some, arith}
use clipboard_helper.Windows.Stream.{
  Stream, Move, ahead, back, Origin, seek_set, seek_cur, seek_end, other_origin, base_of, target_of,
  cap_target, moved, seek_to, seek_from, seek,
}

-- The position that a move from a base names, as an equation of sums.
abbrev pub Lands : ℕ → Move → ℕ → Type 0
Lands base (ahead d) target = target ≡ base + d
Lands base (back n) target = target + (n + 1) ≡ base

target-Lands :
    (base : ℕ) (move : Move)
    → base < 2 ^ 64
    → ((target : ℕ)
        → Lands base move target
        → target < 2 ^ 63
        → cap_target (target_of base move) ≡ some target)
      × ((target : ℕ)
          → cap_target (target_of base move) ≡ some target
          → (target < 2 ^ 63) × Lands base move target)
unfolding cap_target target_of
target-Lands base (ahead d) h = (λ t e b. ground arith, λ t e. ground arith)
target-Lands base (back n) h = (λ t e b. ground arith, λ t e. ground arith)

base_word :
    (origin : Origin) (s : Stream) (base : ℕ)
    → s.size < 2 ^ 64
    → s.pos < 2 ^ 64
    → base_of origin s ≡ some base
    → base < 2 ^ 64
unfolding base_of
base_word seek_set s base hs hp e = ground arith
base_word seek_cur s base hs hp e = ground arith
base_word seek_end s base hs hp e = ground arith
base_word other_origin s base hs hp e = ground arith

moved-target :
    (t : Option ℕ) (s s' : Stream) → seek_to t s ≡ moved s' → (t ≡ some s'.pos) × (s'.size ≡ s.size)
unfolding seek_to
moved-target none s s' h = absurd (ground arith)
moved-target (some target) s s' h =
    let same : record s { pos = target } ≡ s' = cc in rw (sym same) (refl, refl)

-- Seek on a stream of 64-bit size and position ends at a position exactly if the move from the origin
-- lands there, by the integers, and the position is between 0 and 2 ^ 63 - 1.
pub seek-Lands :
    (move : Move) (origin : Origin) (base target : ℕ) (s : Stream)
    → s.size < 2 ^ 64
    → s.pos < 2 ^ 64
    → base_of origin s ≡ some base
    → (seek move origin s ≡ moved (record s { pos = target }))
      ↔ (Lands base move target × (target < 2 ^ 63))
unfolding seek seek_from seek_to
seek-Lands move origin base target s small small' e =
    let (there, back_again) = target-Lands base move (base_word origin s base small small' e) in
    let seeks : seek move origin s ≡ seek_to (cap_target (target_of base move)) s = rw e refl in
    (
      λ h.
          let (found, size) =
            moved-target (cap_target (target_of base move)) s (record s { pos = target })
              (sym seeks ∙ h) in
          let (below, lands) = back_again target found in (lands, below),
      λ (lands, below). rw (e, there target lands below) refl,
    )
