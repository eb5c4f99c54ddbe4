-- ===== src/Linux/Wayland/Selection.antt =====
-- linux/src/clipboard_manager_wayland.cpp: the life of the offers, as a relation between the states of
-- the device. The protocol promises more than the steps ask for: a pointer is introduced again only
-- when its offers so far were destroyed, and a selection names an offer that lives, or none; every such
-- offer is tracked.
use clipboard_helper.Prelude.{
  ℕ, ◌+◌, ◌≤◌, ◌≡◌, ◌≢◌, refl, inl, inr, Option, none, some, Bool, false, List, [], ◌∷◌,
  if◌then◌else◌, arith, ◌==◌, ltb, Bytes, Bool-cases,
}
use clipboard_helper.Linux.Wayland.{WlrManager}
use clipboard_helper.Linux.Wayland.Offers.{
  OfferMap, Device, keys, tear_down, put_offer, on_device_data_offer, insert_mime, on_offer_mime,
  on_device_selection, on_device_primary_selection,
}
use clipboard_helper.Linux.Wayland.Drains.{
  count, tracked, ended, count-append, IsSelectable, on_device_selection-Ends,
}

count-put_offer :
    (k offer : ℕ) (m : OfferMap)
    → count offer (keys m) ≡ 0
    → count k (keys (put_offer offer m)) ≡ (if offer == k then 1 else 0) + count k (keys m)
unfolding put_offer
count-put_offer k offer [] h = ground arith
count-put_offer k offer ((o, mimes) ∷ m) h = ground (arith, count-put_offer k offer m)

keys-put_offer :
    (offer : ℕ) (m : OfferMap) → 1 ≤ count offer (keys m) → keys (put_offer offer m) ≡ keys m
unfolding put_offer
keys-put_offer offer [] h = absurd (omega arith)
keys-put_offer offer ((o, mimes) ∷ m) h = elim (Bool-cases (o == offer)) [
  | inl e ↦ rw e refl
  | inr e ↦
      let later : 1 ≤ count offer (keys m) = ground arith in
      rw (e, keys-put_offer offer m later) refl
]

keys-insert_mime :
    (offer : ℕ) (mime : Bytes) (m : OfferMap) → keys (insert_mime offer mime m) ≡ keys m
unfolding insert_mime
keys-insert_mime offer mime [] = refl
keys-insert_mime offer mime ((o, mimes) ∷ m) = elim (Bool-cases (o == offer)) [
  | inl e ↦ rw e refl
  | inr e ↦ rw (e, keys-insert_mime offer mime m) refl
]

-- The runs of a device, with the offers that the compositor has introduced and those that a primary
-- selection has named. What the manager does is any step of its own.
pub data Run : List ℕ → List ℕ → Device → Type 0 where
  start :
      (m : WlrManager)
      → Run [] [] (record { manager = m; offer_mimes = []; destroyed = []; received = [] })
  manage :
      {is ps : List ℕ} {d : Device} (m : WlrManager)
      → Run is ps d
      → Run is ps (record d { manager = m })
  introduce :
      {is ps : List ℕ} {d : Device} (offer : ℕ)
      → Run is ps d
      → offer ≢ 0
      → count offer is ≤ ended offer d
      → Run (offer ∷ is) ps (on_device_data_offer offer d)
  describe :
      {is ps : List ℕ} {d : Device} (offer : ℕ) (mime : Option Bytes)
      → Run is ps d
      → Run is ps (on_offer_mime offer mime d)
  select :
      {is ps : List ℕ} {d : Device} (pipe_ok : Bool) (offer : ℕ)
      → Run is ps d
      → IsSelectable offer d
      → Run is ps (on_device_selection pipe_ok offer d)
  select_primary :
      {is ps : List ℕ} {d : Device} (offer : ℕ)
      → Run is ps d
      → Run is (offer ∷ ps) (on_device_primary_selection offer d)

on_offer_mime-fields :
    (offer : ℕ) (mime : Option Bytes) (d : Device)
    → (keys (on_offer_mime offer mime d).offer_mimes ≡ keys d.offer_mimes)
      × ((on_offer_mime offer mime d).destroyed ≡ d.destroyed)
unfolding on_offer_mime
on_offer_mime-fields offer none d = (refl, refl)
on_offer_mime-fields offer (some mime) d = elim (Bool-cases (offer == 0)) [
  | inl e ↦ rw e (refl, refl)
  | inr e ↦ rw e (keys-insert_mime offer mime d.offer_mimes, refl)
]

-- Behind an introduction the offer is tracked once, and nothing else changes.
introduced :
    (k offer : ℕ) (d : Device)
    → offer ≢ 0
    → tracked offer d ≤ 1
    → (tracked k (on_device_data_offer offer d) ≡ (if offer == k then 1 else tracked k d))
      × (ended k (on_device_data_offer offer d) ≡ ended k d)
unfolding on_device_data_offer
introduced k offer d nonzero once =
    let e : (offer == 0) ≡ false = ground arith in
    elim (Bool-cases (ltb 0 (tracked offer d))) [
      | inl t ↦
          let there : 1 ≤ tracked offer d = ground arith in
          rw (e, keys-put_offer offer d.offer_mimes there) (ground arith, refl)
      | inr t ↦
          let fresh : tracked offer d ≡ 0 = ground arith in
          rw e (let c = count-put_offer k offer d.offer_mimes fresh in ground arith, refl)
    ]

named_primary :
    (k offer : ℕ) (d : Device)
    → (tracked k (on_device_primary_selection offer d) ≡ tracked k d)
      × (ended k (on_device_primary_selection offer d)
          ≡ (if offer == 0 then 0 else if offer == k then 1 else 0) + ended k d)
unfolding on_device_primary_selection
named_primary k offer d = elim (Bool-cases (offer == 0)) [
  | inl e ↦ rw e (refl, omega arith)
  | inr e ↦ rw e (refl, ground arith)
]

-- Of each offer: introduced at most as often as destroyed or tracked, and that at most as often as
-- introduced or named by a primary selection.
abbrev pub IsAccounted : List ℕ → List ℕ → Device → Type 0
IsAccounted is ps d =
    (tracked 0 d ≡ 0)
    × ((k : ℕ)
        → (tracked k d ≤ 1)
          × (count k is ≤ ended k d + tracked k d)
          × (ended k d + tracked k d ≤ count k is + count k ps))

-- Behind any run of the device: the null pointer is not tracked, any other is tracked once at most,
-- and the bounds on its introductions hold.
pub Run-IsAccounted : {is ps : List ℕ} {d : Device} → Run is ps d → IsAccounted is ps d
Run-IsAccounted (start m) = (refl, λ k. ground arith)
Run-IsAccounted (manage m r) = Run-IsAccounted r
Run-IsAccounted (introduce {is} {ps} {d} offer r nonzero gone) =
    let (null, all) = Run-IsAccounted r in
    let once = (all offer).0 in
    (
      let at_zero = introduced 0 offer d nonzero once in ground arith,
      λ k. let mine = all k in let (more, same) = introduced k offer d nonzero once in ground arith,
    )
Run-IsAccounted (describe {is} {ps} {d} offer mime r) =
    let (same, dead) = on_offer_mime-fields offer mime d in rw (same, dead) (Run-IsAccounted r)
Run-IsAccounted (select {is} {ps} {d} pipe_ok offer r named) =
    let (null, all) = Run-IsAccounted r in
    let (gone, counts) = on_device_selection-Ends pipe_ok offer d (null, λ k. (all k).0) named in
    (rw gone refl, λ k. let c = counts k in let mine = all k in rw gone (ground arith))
Run-IsAccounted (select_primary {is} {ps} {d} offer r) =
    let (null, all) = Run-IsAccounted r in
    (
      let at_zero = named_primary 0 offer d in ground arith,
      λ k. let mine = all k in let (same, more) = named_primary k offer d in ground arith,
    )

ended-tear_down : (k : ℕ) (d : Device) → ended k (tear_down d) ≡ tracked k d + ended k d
unfolding tear_down
ended-tear_down k d = count-append k (keys d.offer_mimes) d.destroyed

-- Behind any run of the device and its teardown, of every offer: it was destroyed at least as often as
-- it was introduced, and at most as often as it was introduced or named by a primary selection. A
-- primary selection of it right before the teardown adds one destruction, unless it is the null pointer.
pub Run-tear_down :
    (is ps : List ℕ) (d : Device) (k : ℕ)
    → Run is ps d
    → (count k is ≤ ended k (tear_down d))
      × (ended k (tear_down d) ≤ count k is + count k ps)
      × (ended k (tear_down (on_device_primary_selection k d))
          ≡ (if k == 0 then 0 else 1) + ended k (tear_down d))
Run-tear_down is ps d k r =
    let mine = (Run-IsAccounted r).1 k in
    let behind = ended-tear_down k d in
    let twice = ended-tear_down k (on_device_primary_selection k d) in
    let more = named_primary k k d in ground arith
