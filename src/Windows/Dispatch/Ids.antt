-- ===== src/Windows/Dispatch/Ids.antt =====
-- windows/src/dispatch.cpp: the identifiers of files, decimal numbers, against the tables.
use clipboard_helper.Prelude.{
  ℕ, zero, suc, ◌+◌, ◌-◌, ◌*◌, ◌/◌, ◌%◌, ◌≤◌, ◌<◌, ◌^◌, ◌≡◌, ◌≢◌, refl, sym, ◌∙◌, inl, inr, Option,
  none, some, true, false, List, [], ◌∷◌, ◌++◌, arith, ◌==◌, ltb, Bytes, is_empty, bytes_eq,
  bytes_eq_iff, bytes_eq_refl, length, Bool-cases, if-cases,
}
use clipboard_helper.Windows.Codec.Files.{Wide, to_string_loop, to_string}
use clipboard_helper.Windows.Dispatch.{
  Dispatcher, by_index, update_file_paths, update_virtual_files,
}
use clipboard_helper.Windows.Dispatch.Files.{
  find_id, physical, virtual, virtual_backing, path_backing, resolve,
}

-- The reader of a decimal number.
abbrev decimal_from : ℕ → Bytes → ℕ
decimal_from acc [] = acc
decimal_from acc (c ∷ s) = decimal_from (acc * 10 + (c - 0x30)) s

decimal_from-last :
    (acc c : ℕ) (s : Bytes) → decimal_from acc (s ++ c ∷ []) ≡ decimal_from acc s * 10 + (c - 0x30)
decimal_from-last acc c [] = refl
decimal_from-last acc c (x ∷ s) = decimal_from-last (acc * 10 + (x - 0x30)) c s

-- The numbers that some digits more than one can write.
abbrev limit : ℕ → ℕ
limit zero = 10
limit (suc n) = 10 * limit n

decimal-to_string_loop : (fuel n : ℕ) → n < limit fuel → decimal_from 0 (to_string_loop fuel n) ≡ n
unfolding to_string_loop
decimal-to_string_loop zero n h = omega arith
decimal-to_string_loop (suc fuel) n h =
    if-cases (λ s. decimal_from 0 s ≡ n) (ltb n 10) (λ e. omega arith)
      (λ e.
        let rest = decimal-to_string_loop fuel (n / 10) (omega arith) in
        let step = decimal_from-last 0 (0x30 + n % 10) (to_string_loop fuel (n / 10)) in
        omega arith)

-- More digits than a number has change nothing.
to_string_loop-more :
    (fuel fuel' n : ℕ)
    → fuel ≤ fuel'
    → n < limit fuel
    → to_string_loop fuel' n ≡ to_string_loop fuel n
unfolding to_string_loop
to_string_loop-more zero zero n l h = refl
to_string_loop-more zero (suc more) n l h =
    let small : ltb n 10 ≡ true = ground arith in
    let same : n % 10 ≡ n = omega arith in rw (small, same) refl
to_string_loop-more (suc fuel) zero n l h = absurd (omega arith)
to_string_loop-more (suc fuel) (suc more) n l h =
    rw (to_string_loop-more fuel more (n / 10) (omega arith) (omega arith)) refl

abbrev pub get_elem? {ℓ} : {A : Type ℓ} → List A → ℕ → Option A
get_elem? [] i = none
get_elem? (x ∷ xs) zero = some x
get_elem? (x ∷ xs) (suc i) = get_elem? xs i

different :
    (i j : ℕ)
    → i < limit 19
    → j < limit 19
    → i ≢ j
    → bytes_eq (to_string_loop 19 j) (to_string_loop 19 i) ≡ false
different i j hi hj other =
    elim (Bool-cases (bytes_eq (to_string_loop 19 j) (to_string_loop 19 i))) [
      | inr e ↦ e
      | inl e ↦
          let same : to_string_loop 19 j ≡ to_string_loop 19 i =
            (bytes_eq_iff (to_string_loop 19 j) (to_string_loop 19 i)).0 e in
          let back : decimal_from 0 (to_string_loop 19 j) ≡ i =
            rw same (decimal-to_string_loop 19 i hi) in
          let back' = decimal-to_string_loop 19 j hj in absurd (other (sym back ∙ back'))
    ]

find_id-by_index {ℓ} :
    {A : Type ℓ} (i j k : ℕ) (xs : List A)
    → k ≡ j + i
    → j + length xs ≤ limit 19
    → i < length xs
    → find_id (to_string_loop 19 k) (by_index j xs) ≡ get_elem? xs i
unfolding find_id by_index
find_id-by_index i j k [] at all h = absurd (omega arith)
find_id-by_index zero j k (x ∷ xs) at all h =
    let here : k ≡ j = omega arith in rw (here, bytes_eq_refl (to_string_loop 19 j)) refl
find_id-by_index (suc i) j k (x ∷ xs) at all h =
    rw (different k j (omega arith) (omega arith) (omega arith))
      (find_id-by_index i (j + 1) k xs (omega arith) (omega arith) (omega arith))

get_elem-some {ℓ} :
    {A : Type ℓ} (xs : List A) (i : ℕ) (x : A) → get_elem? xs i ≡ some x → i < length xs
get_elem-some [] i x h = absurd (ground arith)
get_elem-some (y ∷ xs) zero x h = omega arith
get_elem-some (y ∷ xs) (suc i) x h = omega (arith, get_elem-some xs i x h)

-- The tables of snapshots with 2 ^ 32 entries at most: the identifier that the metadata of entry `i`
-- carries stands for the path `i`, if that is not empty, and for the virtual file `i` of an object.
pub resolve-to_string :
    (i : ℕ) (paths : List Wide) (path : Wide) (lindexes : List ℕ) (lindex object : ℕ)
    (d : Dispatcher)
    → length paths ≤ 2 ^ 32
    → length lindexes ≤ 2 ^ 32
    → get_elem? paths i ≡ some path
    → is_empty path ≡ false
    → get_elem? lindexes i ≡ some lindex
    → object ≢ 0
    → (resolve (to_string i) (update_file_paths paths d) ≡ physical path)
      × (resolve (to_string i) (update_virtual_files object lindexes d) ≡ virtual object lindex)
unfolding to_string resolve update_file_paths update_virtual_files path_backing virtual_backing
    find_id
resolve-to_string i paths path lindexes lindex object d few few' e full e' nonnull =
    let bound = get_elem-some paths i path e in
    let bound' = get_elem-some lindexes i lindex e' in
    let digits = to_string_loop-more 9 19 i (omega arith) (omega arith) in
    let found = find_id-by_index i 0 i paths (omega arith) (omega arith) bound in
    let found' = find_id-by_index i 0 i lindexes (omega arith) (omega arith) bound' in
    let there : (object == 0) ≡ false = ground arith in
    (rw (sym digits, found, e, full) refl, rw (sym digits, found', e', there) refl)
