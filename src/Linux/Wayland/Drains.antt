-- ===== src/Linux/Wayland/Drains.antt =====
-- linux/src/clipboard_manager_wayland.cpp: what a selection destroys, by how often each offer is
-- tracked.
use clipboard_helper.Prelude.{
  ℕ, suc, ◌+◌, ◌≤◌, ◌≡◌, ◌≢◌, refl, inl, inr, Option, none, some, Bool, true, false, List, [], ◌∷◌,
  ◌++◌, if◌then◌else◌, arith, ◌==◌, Bytes, Bool-cases,
}
use clipboard_helper.Linux.Wayland.{text_mime_types}
use clipboard_helper.Linux.Wayland.Offers.{
  OfferMap, Device, keys, drain_loop, drain_other_offers, erase_offer, choose, receive_offer,
  forget_text, take_selection, selection_from, on_device_selection,
}

abbrev pub count : ℕ → List ℕ → ℕ
count k [] = 0
count k (x ∷ xs) = if x == k then suc (count k xs) else count k xs

-- How often an offer is tracked, and how often it was destroyed.
abbrev pub tracked : ℕ → Device → ℕ
tracked k d = count k (keys d.offer_mimes)

abbrev pub ended : ℕ → Device → ℕ
ended k d = count k d.destroyed

pub count-append : (k : ℕ) (xs ys : List ℕ) → count k (xs ++ ys) ≡ count k xs + count k ys
count-append k [] ys = omega arith
count-append k (x ∷ xs) ys = ground (arith, count-append k xs ys)

-- With nothing to keep, all goes.
drain_loop-all :
    (keep : ℕ) (m : OfferMap) → count keep (keys m) ≡ 0 → drain_loop keep m ≡ ([], [], keys m)
unfolding drain_loop
drain_loop-all keep [] h = refl
drain_loop-all keep ((o, mimes) ∷ m) h = elim (Bool-cases (o == keep)) [
  | inl e ↦ absurd (ground arith)
  | inr e ↦
      let none_kept : count keep (keys m) ≡ 0 = ground arith in
      rw (drain_loop-all keep m none_kept, e) refl
]

-- With an offer to keep that is tracked once, it stays alone.
drain_loop-one :
    (keep : ℕ) (m : OfferMap)
    → count keep (keys m) ≡ 1
    → (mimes : List Bytes) × (gone : List ℕ) × (drain_loop keep m
        ≡ (mimes, (keep, mimes) ∷ [], gone))
      × ((k : ℕ) → count k (keep ∷ gone) ≡ count k (keys m))
unfolding drain_loop
drain_loop-one keep [] h = absurd (omega arith)
drain_loop-one keep ((o, mimes) ∷ m) h = elim (Bool-cases (o == keep)) [
  | inl e ↦
      let none_kept : count keep (keys m) ≡ 0 = ground arith in
      let same : o ≡ keep = ground arith in
      (mimes, keys m, rw (drain_loop-all keep m none_kept, e, same) refl, λ k. rw same refl)
  | inr e ↦
      let one_kept : count keep (keys m) ≡ 1 = ground arith in
      let (kept, gone, eq, counts) = drain_loop-one keep m one_kept in
      (kept, o ∷ gone, rw (eq, e) refl, λ k. let c = counts k in ground arith)
]

-- Pointers are tracked once at most, and the null pointer never.
abbrev pub IsTracking : Device → Type 0
IsTracking d = (tracked 0 d ≡ 0) × ((k : ℕ) → tracked k d ≤ 1)

-- What a selection may name.
abbrev pub IsSelectable : ℕ → Device → Type 0
IsSelectable offer d = (offer ≢ 0) → tracked offer d ≡ 1

-- Every tracked offer was destroyed once, and nothing is tracked.
abbrev pub Ends : Device → Device → Type 0
Ends d d' = (d'.offer_mimes ≡ []) × ((k : ℕ) → ended k d' ≡ ended k d + tracked k d)

drain_other_offers-all :
    (d : Device)
    → tracked 0 d ≡ 0
    → drain_other_offers 0 d
      ≡ ([], record d { offer_mimes = []; destroyed = keys d.offer_mimes ++ d.destroyed })
unfolding drain_other_offers
drain_other_offers-all d h = rw (drain_loop-all 0 d.offer_mimes h) refl

drain-Ends : (d : Device) → tracked 0 d ≡ 0 → Ends d (drain_other_offers 0 d).1
drain-Ends d h =
    rw (drain_other_offers-all d h)
      (refl, λ k. omega (arith, count-append k (keys d.offer_mimes) d.destroyed))

receive_offer-fields :
    (pipe_ok : Bool) (offer : ℕ) (chosen : Option Bytes) (d : Device)
    → ((receive_offer pipe_ok offer chosen d).offer_mimes ≡ d.offer_mimes)
      × ((receive_offer pipe_ok offer chosen d).destroyed ≡ offer ∷ d.destroyed)
unfolding receive_offer
receive_offer-fields pipe_ok offer none d = (refl, refl)
receive_offer-fields true offer (some chosen) d = (refl, refl)
receive_offer-fields false offer (some chosen) d = (refl, refl)

take_selection-Ends :
    (pipe_ok : Bool) (offer : ℕ) (d : Device)
    → tracked offer d ≡ 1
    → Ends d (take_selection pipe_ok offer d)
unfolding take_selection drain_other_offers erase_offer
take_selection-Ends pipe_ok offer d h =
    let (mimes, gone, eq, counts) = drain_loop-one offer d.offer_mimes h in
    let same : (offer == offer) ≡ true = ground arith in
    let (left, dead) =
      receive_offer-fields pipe_ok offer (choose text_mime_types mimes)
        (record d { offer_mimes = []; destroyed = gone ++ d.destroyed }) in
    rw (eq, same)
      (
        left,
        λ k. rw dead (let c = counts k in let a = count-append k gone d.destroyed in ground arith),
      )

selection_from-Ends :
    (source : Option (List Bytes)) (pipe_ok : Bool) (offer : ℕ) (d : Device)
    → tracked 0 d ≡ 0
    → tracked offer d ≡ 1
    → Ends d (selection_from source pipe_ok offer d)
unfolding selection_from
selection_from-Ends none pipe_ok offer d null once = take_selection-Ends pipe_ok offer d once
selection_from-Ends (some source) pipe_ok offer d null once = drain-Ends d null

-- A selection, of a tracked offer or of none, while pointers are tracked once at most: every tracked
-- offer is destroyed once, no other is, and nothing is tracked behind it.
pub on_device_selection-Ends :
    (pipe_ok : Bool) (offer : ℕ) (d : Device)
    → IsTracking d
    → IsSelectable offer d
    → Ends d (on_device_selection pipe_ok offer d)
unfolding on_device_selection forget_text
on_device_selection-Ends pipe_ok offer d (null, once) named = elim (Bool-cases (offer == 0)) [
  | inl e ↦ rw e (drain-Ends (forget_text d) null)
  | inr e ↦
      let is_tracked : tracked offer d ≡ 1 = named (ground arith) in
      rw e (selection_from-Ends d.manager.current_source pipe_ok offer d null is_tracked)
]
