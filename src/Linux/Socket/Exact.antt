-- ===== src/Linux/Socket/Exact.antt =====
-- linux/src/socket_server.cpp: ReadExact and WriteExact over the answers of the kernel.
use clipboard_helper.Prelude.{
  ℕ, zero, suc, ◌≤◌, ◌<◌, ◌≡◌, refl, sym, ap, ◌∙◌, inl, inr, Bool, true, false, List, [], ◌∷◌, ◌++◌,
  arith, ltb, ltb→lt, ltb→le, Bool-cases, Bytes, All, length, length-drop, take, drop,
  take-append-drop,
}
use clipboard_helper.Prelude.Parse.{Parse, parsed}
use clipboard_helper.Linux.Socket.{
  Arrival, arrived, interrupted, closed, failed, read_exact, Sending, sent, again, broken, Written,
  done, gave_up, blocked, write_exact,
}

-- The bytes that arrive.
abbrev pub stream : List Arrival → Bytes
stream [] = []
stream (arrived s ∷ es) = s ++ stream es
stream (interrupted ∷ es) = stream es
stream (closed ∷ es) = stream es
stream (failed ∷ es) = stream es

-- An answer of a connection that stays up.
abbrev pub IsOpen : Arrival → Type 0
IsOpen (arrived []) = ⊥
IsOpen (arrived (b ∷ s)) = Unit
IsOpen interrupted = Unit
IsOpen closed = ⊥
IsOpen failed = ⊥

-- Two ways to cut one list.
cut :
    (xs ys ds more : Bytes)
    → xs ++ ys ≡ ds ++ more
    → length ds ≤ length xs
    → (take (length ds) xs ≡ ds) × (drop (length ds) xs ++ ys ≡ more)
cut xs ys [] more h l = (refl, h)
cut [] ys (d ∷ ds) more h l = absurd (omega arith)
cut (x ∷ xs) ys (d ∷ ds) more h l =
    let first : x ≡ d = cc in
    let tail : xs ++ ys ≡ ds ++ more = cc in
    let (taken, left) = cut xs ys ds more tail (omega arith) in (rw (first, taken), left)

IsOpen-rest : (n : ℕ) (s : Bytes) → n < length s → IsOpen (arrived (drop n s))
IsOpen-rest n [] h = absurd (omega arith)
IsOpen-rest zero (b ∷ s) h = tt
IsOpen-rest (suc n) (b ∷ s) h = IsOpen-rest n s (omega arith)

-- What a successful read leaves of an open connection that carries `more` behind the bytes read.
abbrev pub Reads : Parse (Bytes × List Arrival) → Bytes → Bytes → Type 0
Reads result bytes more =
    (es : List Arrival) × (result ≡ parsed (bytes, es)) × (stream es ≡ more) × All IsOpen es

pub read_exact-stream :
    (bytes more : Bytes) (es : List Arrival)
    → All IsOpen es
    → stream es ≡ bytes ++ more
    → Reads (read_exact (length bytes) es) bytes more
unfolding read_exact
read_exact-stream [] more es live h = (es, refl, h, live)
read_exact-stream (d ∷ ds) more [] live h = cc
read_exact-stream (d ∷ ds) more (interrupted ∷ es) live h =
    read_exact-stream (d ∷ ds) more es live.1 h
read_exact-stream (d ∷ ds) more (closed ∷ es) live h = absurd live.0
read_exact-stream (d ∷ ds) more (failed ∷ es) live h = absurd live.0
read_exact-stream (d ∷ ds) more (arrived [] ∷ es) live h = absurd live.0
read_exact-stream (d ∷ ds) more (arrived (b ∷ s) ∷ es) live h =
    let first : b ≡ d = cc in
    let tail : s ++ stream es ≡ ds ++ more = cc in
    elim (Bool-cases (ltb (length ds) (length s))) [
      | inl short ↦
          let fits = ltb→lt (length ds) (length s) short in
          let (taken, left) = cut s (stream es) ds more tail (omega arith) in
          (
            arrived (drop (length ds) s) ∷ es,
            rw (short, first, taken),
            left,
            (IsOpen-rest (length ds) s fits, live.1),
          )
      | inr long ↦
          let fits = ltb→le (length ds) (length s) long in
          let (taken, left) = cut ds more s (stream es) (sym tail) fits in
          let (es', reads, rest, live') =
            read_exact-stream (drop (length s) ds) more es live.1 (sym left) in
          let whole : s ++ drop (length s) ds ≡ ds =
            ap (λ t. t ++ drop (length s) ds) (sym taken) ∙ take-append-drop (length s) ds in
          (
            es',
            rw (long, sym (length-drop (length s) ds), reads, first)
                (ap (λ t. parsed (d ∷ t, es')) whole),
            rest,
            live',
          )
    ]

-- The result of a write that took everything.
abbrev pub is_done : Written → Bool
is_done (done es) = true
is_done gave_up = false
is_done blocked = false

-- A write that ends well has put out exactly its argument.
pub write_exact-done :
    (s : Bytes) (es : List Sending) → is_done (write_exact s es).0 ≡ true → (write_exact s es).1 ≡ s
unfolding write_exact
write_exact-done [] es h = refl
write_exact-done (b ∷ s) [] h = cc
write_exact-done (b ∷ s) (sent zero ∷ es) h = cc
write_exact-done (b ∷ s) (sent (suc n) ∷ es) h =
    rw (write_exact-done (drop n s) es h, take-append-drop n s)
write_exact-done (b ∷ s) (again ∷ es) h = write_exact-done (b ∷ s) es h
write_exact-done (b ∷ s) (broken ∷ es) h = cc
