-- ===== src/Windows/Stream/Reading.antt =====
-- windows/src/virtual_file_provider.cpp: a consumer that calls Read until it returns S_FALSE.
use Prim.Native.Nat.{min}
use mathlib.Core.Path.{subst}
use clipboard_helper.Prelude.{
  ℕ, zero, suc, ◌+◌, ◌-◌, ◌≤◌, ◌<◌, ◌≡◌, refl, sym, ap, inl, inr, Option, none, some, true, false,
  ◌++◌, ltb, leb, ◌==◌, if◌then◌else◌, Bytes, length, length-append, length-take, length-drop, take,
  drop, take-append-drop, take_all, drop_all, drop_more, arith, if-cases, Bool-cases,
}
use clipboard_helper.Prelude.Parse.{Parse, parsed, malformed, stuck, ◌>>=◌}
use clipboard_helper.Windows.Stream.{
  Stream, Fetch, Status, s_ok, s_false, fetch_failed, e_fail, stg_e_invalidpointer, stg_e_inuse,
  ReadResult, refusal, copy_chunk, fetched, read,
}

-- The consumer: the bytes that it has when S_FALSE comes; `malformed` is a failure, which it reports.
-- Each call is a new Read, which no other one is within. The fuel is the calls left.
abbrev pub continue : Status → Bytes → Stream → (Stream → Parse Bytes) → Parse Bytes
continue s_ok bytes s more = more s >>= (λ rest. parsed (bytes ++ rest))
continue s_false bytes s more = parsed bytes
continue fetch_failed bytes s more = malformed
continue e_fail bytes s more = malformed
continue stg_e_invalidpointer bytes s more = malformed
continue stg_e_inuse bytes s more = malformed

abbrev pub read_all : Fetch → ℕ → ℕ → Stream → Parse Bytes
read_all fetch cb zero s = stuck
read_all fetch cb (suc calls) s =
    let r = read fetch true cb s in
    continue r.status r.bytes r.stream (λ s'. read_all fetch cb calls s')

-- What every result of Read that is no failure satisfies: the bytes fit the caller's buffer, the position
-- has moved by them, and S_FALSE says that it is at the end.
abbrev Sound : ℕ → Stream → ReadResult → Type 0
Sound cb s r =
    (r.status ≡ s_ok
      → (s.pos + length r.bytes ≤ s.size)
        × (r.stream ≡ record s { pos = s.pos + length r.bytes })
        × (length r.bytes ≤ cb))
    × (r.status ≡ s_false → (s.pos + length r.bytes ≡ s.size) × (length r.bytes ≤ cb))

copy_chunk-Sound :
    (cb want : ℕ) (chunk : Bytes) (s : Stream)
    → want ≤ cb
    → s.pos + want ≤ s.size
    → Sound cb s (copy_chunk want chunk s)
unfolding copy_chunk
copy_chunk-Sound cb want chunk s fits room =
    let got = min (length chunk) want in
    let size : length (take got chunk) ≡ got = omega (arith, length-take got chunk) in
    if-cases (Sound cb s) (got == 0) (λ e. (λ x. absurd (ground arith), λ x. absurd (ground arith)))
      (λ e. elim (Bool-cases (leb s.size (s.pos + got))) [
        | inl f ↦ rw f (λ x. absurd (ground arith), λ x. (ground arith, omega arith))
        | inr f ↦ rw f ((λ x. (omega arith, rw size refl, omega arith)), λ x. absurd (ground arith))
      ])

fetched-Sound :
    (cb want : ℕ) (answer : Option Bytes) (s : Stream)
    → want ≤ cb
    → s.pos + want ≤ s.size
    → Sound cb s (fetched answer want s)
unfolding fetched
fetched-Sound cb want none s fits room = (λ x. absurd (ground arith), λ x. absurd (ground arith))
fetched-Sound cb want (some chunk) s fits room = copy_chunk-Sound cb want chunk s fits room

read-Sound :
    (fetch : Fetch) (cb : ℕ) (s : Stream) → s.pos ≤ s.size → Sound cb s (read fetch true cb s)
unfolding read
read-Sound fetch cb s within =
    let want = min (s.size - s.pos) cb in
    let here : s.pos + 0 ≡ s.pos = omega arith in
    if-cases (Sound cb s) (cb == 0)
      (λ e. ((λ x. (omega arith, rw here refl, omega arith)), λ x. absurd (ground arith)))
      (λ e.
        if-cases (Sound cb s) (leb s.size s.pos)
          (λ e. ((λ x. absurd (ground arith)), λ x. (ground arith, omega arith)))
          (λ e.
            if-cases (Sound cb s) s.reading
              (λ e. ((λ x. absurd (ground arith)), λ x. absurd (ground arith)))
              (λ e. fetched-Sound cb want (fetch s.pos want) s (omega arith) (omega arith))))

joined :
    (bytes front : Bytes) (m : Parse Bytes)
    → (m >>= (λ rest. parsed (front ++ rest))) ≡ parsed bytes
    → (rest : Bytes) × (m ≡ parsed rest) × (bytes ≡ front ++ rest)
joined bytes front (parsed rest) e = (rest, refl, cc)
joined bytes front malformed e = absurd (ground arith)
joined bytes front stuck e = absurd (ground arith)

-- Whatever the provider answers: a consumer that sees S_FALSE has as many bytes as the declared size
-- leaves from the position on.
pub read_all-length :
    (fetch : Fetch) (cb calls : ℕ) (s : Stream) (bytes : Bytes)
    → s.pos ≤ s.size
    → read_all fetch cb calls s ≡ parsed bytes
    → length bytes ≡ s.size - s.pos
read_all-length fetch cb zero s bytes within h = absurd (ground arith)
read_all-length fetch cb (suc calls) s bytes within h =
    let r = read fetch true cb s in
    ends r.status r.bytes r.stream (read-Sound fetch cb s within) h
      (λ s' more. read_all-length fetch cb calls s' more)
  where
    ends :
        (status : Status) (front : Bytes) (s' : Stream)
        → Sound cb s (record { status = status; bytes = front; stream = s' })
        → continue status front s' (λ s''. read_all fetch cb calls s'') ≡ parsed bytes
        → ((s'' : Stream) (more : Bytes)
            → s''.pos ≤ s''.size
            → read_all fetch cb calls s'' ≡ parsed more
            → length more ≡ s''.size - s''.pos)
        → length bytes ≡ s.size - s.pos
    ends s_ok front s' sound e ih =
        let (room, at, fits) = sound.0 refl in
        let (rest, more, whole) = joined bytes front (read_all fetch cb calls s') e in
        let within' : s'.pos ≤ s'.size = rw at room in
        let left : length rest ≡ s.size - (s.pos + length front) =
          subst (λ (x : Stream). length rest ≡ x.size - x.pos) at (ih s' rest within' more) in
        rw whole (omega (arith, length-append front rest))
    ends s_false front s' sound e ih =
        let (full, fits) = sound.1 refl in
        let same : front ≡ bytes = cc in rw (sym same) (omega arith)
    ends fetch_failed front s' sound e ih = absurd (ground arith)
    ends e_fail front s' sound e ih = absurd (ground arith)
    ends stg_e_invalidpointer front s' sound e ih = absurd (ground arith)
    ends stg_e_inuse front s' sound e ih = absurd (ground arith)

-- A provider that has the file: inside it, some bytes that are asked for come, maybe not all.
abbrev pub Provides : Fetch → Bytes → Type 0
Provides fetch file =
    (offset want : ℕ)
    → offset < length file
    → 0 < want
    → (n : ℕ) × (fetch offset want ≡ some (take n (drop offset file)))
      × (0 < n)
      × (n ≤ want)
      × (offset + n ≤ length file)

-- A read inside the file.
abbrev Inside : Bytes → Stream → ReadResult → Type 0
Inside file s r =
    (n : ℕ) × (0 < n)
    × (s.pos + n ≤ s.size)
    × (r ≡ record {
      status = if leb s.size (s.pos + n) then s_false else s_ok;
      bytes = take n (drop s.pos file);
      stream = record s { pos = s.pos + n };
    })

read-Inside :
    (fetch : Fetch) (file : Bytes) (cb : ℕ) (s : Stream)
    → Provides fetch file
    → s.size ≡ length file
    → s.pos < s.size
    → s.reading ≡ false
    → 0 < cb
    → Inside file s (read fetch true cb s)
unfolding read fetched copy_chunk
read-Inside fetch file cb s provides size within idle asked =
    let want = min (s.size - s.pos) cb in
    let (n, answer, some_bytes, fits, room) = provides s.pos want (omega arith) (omega arith) in
    let rest = drop s.pos file in
    let chunk = take n rest in
    let left = length-drop s.pos file in
    let long : length chunk ≡ n = omega (arith, length-take n rest) in
    let got : min (length chunk) want ≡ n = omega arith in
    let whole : take n chunk ≡ chunk = take_all n chunk (omega arith) in
    let a : (cb == 0) ≡ false = ground arith in
    let b : leb s.size s.pos ≡ false = ground arith in
    let c : (n == 0) ≡ false = ground arith in
    (n, some_bytes, omega arith, rw (a, b, idle, answer, got, whole, c) refl)

read-end :
    (fetch : Fetch) (cb : ℕ) (s : Stream)
    → s.pos ≡ s.size
    → 0 < cb
    → read fetch true cb s ≡ refusal s_false s
unfolding read
read-end fetch cb s at_end asked =
    let a : (cb == 0) ≡ false = ground arith in
    let b : leb s.size s.pos ≡ true = ground arith in rw (a, b) refl

-- A provider that has a file of the declared size, and calls of Read for some bytes each, on a stream
-- that no Read is within: the consumer ends with the rest of the file from the position on, however
-- short the provider's answers are. More calls than there are bytes left are enough.
pub read_all-file :
    (fetch : Fetch) (file : Bytes) (cb calls : ℕ) (s : Stream)
    → Provides fetch file
    → s.size ≡ length file
    → s.pos ≤ s.size
    → s.reading ≡ false
    → 0 < cb
    → s.size - s.pos < calls
    → read_all fetch cb calls s ≡ parsed (drop s.pos file)
read_all-file fetch file cb zero s provides size within idle asked enough = absurd (omega arith)
read_all-file fetch file cb (suc calls) s provides size within idle asked enough =
    elim (Bool-cases (ltb s.pos s.size)) [
      | inr past ↦
          let at_end : s.pos ≡ s.size = ground arith in
          rw (read-end fetch cb s at_end asked, drop_all s.pos file (omega arith)) refl
      | inl inside ↦
          let (n, some_bytes, room, e) =
            read-Inside fetch file cb s provides size (ground arith) idle asked in
          let ih : s.size - (s.pos + n) < calls
              → read_all fetch cb calls (record s { pos = s.pos + n })
                ≡ parsed (drop (s.pos + n) file) =
            λ less.
              read_all-file fetch file cb calls (record s { pos = s.pos + n }) provides size room
                idle asked less in
          rw e (rejoined n room (ih (omega arith)))
    ]
  where
    rejoined :
        (n : ℕ)
        → s.pos + n ≤ s.size
        → read_all fetch cb calls (record s { pos = s.pos + n }) ≡ parsed (drop (s.pos + n) file)
        → continue
            (if leb s.size (s.pos + n) then s_false else s_ok)
            (take n (drop s.pos file))
            (record s { pos = s.pos + n })
            (λ s'. read_all fetch cb calls s')
          ≡ parsed (drop s.pos file)
    rejoined n room rest = elim (Bool-cases (leb s.size (s.pos + n))) [
      | inl last ↦
          let left = length-drop s.pos file in
          rw last (ap parsed (take_all n (drop s.pos file) (ground arith)))
      | inr more ↦
          rw (more, rest, sym (drop_more n s.pos file))
            (ap parsed (take-append-drop n (drop s.pos file)))
    ]
