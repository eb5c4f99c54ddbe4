-- ===== src/Windows/DataObject/Offered.antt =====
-- windows/src/virtual_file_provider.cpp: what EnumFormatEtc offers against what QueryGetData and GetData
-- say to it.
use clipboard_helper.Prelude.{
  ℕ, zero, suc, ◌+◌, ◌≤◌, ◌<◌, ◌≡◌, refl, Option, none, some, true, List, [], ◌∷◌, arith, All,
  length, take, map, ap, sym, ◌∙◌,
}
use clipboard_helper.Windows.Codec.Files.{VirtualFileSpec}
use clipboard_helper.Windows.Formats.{build_file_group_descriptor_payload}
use clipboard_helper.Windows.Formats.Layout.{le32}
use clipboard_helper.Windows.Stream.{new_stream}
use clipboard_helper.Windows.DataObject.{
  Formatetc, Registered, Given, s_ok, given, refused, dv_e_lindex, hglobal, istream, query_get_data,
  contents_entries, offered_formats, next_loop, get_data, spec_at, contents_at, open_stream,
  build_file_group_descriptor, allocated,
}

next_loop-take : (n : ℕ) (rest : List Formatetc) → next_loop n rest ≡ take n rest
unfolding next_loop
next_loop-take zero rest = refl
next_loop-take (suc n) [] = refl
next_loop-take (suc n) (fe ∷ rest) = rw (next_loop-take n rest) refl

contents_entries-query :
    (r : Registered) (i : ℕ) (specs : List VirtualFileSpec)
    → All (λ fe. query_get_data r fe ≡ s_ok) (contents_entries r i specs)
unfolding contents_entries query_get_data
contents_entries-query r i [] = tt
contents_entries-query r i (_ ∷ specs) = (ground arith, contents_entries-query r (i + 1) specs)

-- QueryGetData accepts every format that EnumFormatEtc offers.
offered_formats-query :
    (r : Registered) (specs : List VirtualFileSpec)
    → All (λ fe. query_get_data r fe ≡ s_ok) (offered_formats r specs)
unfolding offered_formats query_get_data
offered_formats-query r specs =
    (ground arith, (ground arith, (ground arith, contents_entries-query r 0 specs)))

abbrev contents_entry : Registered → Option ℕ → Formatetc
contents_entry r i = record { format = r.contents; lindex = i; tymed = 4 }

abbrev pub stream_of : VirtualFileSpec → Given
stream_of spec = given (istream spec.file_id (new_stream spec.size))

-- What the formats that EnumFormatEtc offers stand for, in its order.
abbrev pub answers : (ℕ → ℕ) → List VirtualFileSpec → List Given
answers times specs =
    given (hglobal (le32 1))
    ∷ given (hglobal (build_file_group_descriptor_payload times specs))
    ∷ refused dv_e_lindex
    ∷ map stream_of specs

build_file_group_descriptor-payload :
    (times : ℕ → ℕ) (specs : List VirtualFileSpec)
    → 0 < length specs
    → length specs ≤ 100000
    → build_file_group_descriptor true times specs
      ≡ given (hglobal (build_file_group_descriptor_payload times specs))
unfolding build_file_group_descriptor build_file_group_descriptor_payload allocated le32
build_file_group_descriptor-payload times [] some_file h = absurd (omega arith)
build_file_group_descriptor-payload times (spec ∷ specs) some_file h = ground arith

module _ (r : Registered) (times : ℕ → ℕ) (dn : r.contents ≡ r.descriptor → ⊥)
    (an : r.contents ≡ r.file_attributes → ⊥) (en : r.contents ≡ r.drop_effect → ⊥)
    (ed : r.drop_effect ≡ r.descriptor → ⊥) (ea : r.drop_effect ≡ r.file_attributes → ⊥)
    (specs : List VirtualFileSpec) where
  get_data-contents :
      (i : Option ℕ) → get_data r times specs true (contents_entry r i) ≡ contents_at true specs i
  unfolding get_data
  get_data-contents i = ground arith

  contents_entries-streams :
      (i : ℕ) (rest : List VirtualFileSpec)
      → ((j : ℕ) → spec_at specs (i + j) ≡ spec_at rest j)
      → map (get_data r times specs true) (contents_entries r i rest) ≡ map stream_of rest
  unfolding contents_entries contents_at spec_at open_stream
  contents_entries-streams i [] at = refl
  contents_entries-streams i (spec ∷ rest) at =
      let start : i + 0 ≡ i = omega arith in
      let here : spec_at specs i ≡ some spec = sym (ap (spec_at specs) start) ∙ at 0 in
      let shift : (j : ℕ) → i + 1 + j ≡ i + suc j = λ j. omega arith in
      let next : (j : ℕ) → spec_at specs (i + 1 + j) ≡ spec_at rest j =
        λ j. ap (spec_at specs) (shift j) ∙ at (suc j) in
      rw (get_data-contents (some i), contents_entries-streams (i + 1) rest next)
        (ap (λ o. open_stream true o ∷ map stream_of rest) here)

  get_data-drop_effect :
      get_data r times specs true (record { format = r.drop_effect; lindex = none; tymed = 1 })
      ≡ given (hglobal (le32 1))
  unfolding get_data allocated
  get_data-drop_effect = ground arith

  get_data-descriptor :
      get_data r times specs true (record { format = r.descriptor; lindex = none; tymed = 1 })
      ≡ build_file_group_descriptor true times specs
  unfolding get_data
  get_data-descriptor = ground arith

  -- For an object of at least one and at most 100000 files, whose formats are registered under different
  -- numbers, and while memory lasts: GetData gives for what EnumFormatEtc offers, in its order, the copy
  -- effect, the descriptors of the files, a refusal for the contents without an index, and for each file a
  -- new stream of that file with its size.
  pub get_data-offered :
      0 < length specs
      → length specs ≤ 100000
      → map (get_data r times specs true) (offered_formats r specs) ≡ answers times specs
  unfolding offered_formats contents_at
  get_data-offered some_file h =
      let zeroth : (j : ℕ) → spec_at specs (0 + j) ≡ spec_at specs j =
        λ j. ap (spec_at specs) (omega arith) in
      rw
        (
          get_data-drop_effect,
          get_data-descriptor,
          build_file_group_descriptor-payload times specs some_file h,
          get_data-contents none,
          contents_entries-streams 0 specs zeroth,
        )
        refl
