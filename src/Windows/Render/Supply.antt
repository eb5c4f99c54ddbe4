-- ===== src/Windows/Render/Supply.antt =====
-- windows/src/dispatch.cpp: the state of delayed rendering against what it stands for, the current
-- announcement and the answers that have come for it.
use clipboard_helper.Prelude.{
  ℕ, ◌≡◌, ◌≢◌, ◌⊎◌, refl, sym, inl, inr, Option, none, some, Bool, true, false, not, List, [], ◌∷◌,
  arith, if◌then◌else◌, ◌==◌, Bytes, is_empty, bytes_eq, Bool-cases, if-cases,
}
use clipboard_helper.Windows.Render.{
  RenderState, announce_render, signal, provide_render, Format, requested_type, Progress,
  left_empty, renders, waits, adopt, ask_parent, begin_requested, on_render_format, Wake,
  signalled_wake, message_wake, timeout_wake, failed_wake, after_wake, after_pump, wait_round,
  Event, announced, provided, begun, woken, cancelled, occur, occur_all,
}

-- The answers that have come for the current announcement, the last one first.
pub record Supply : Type 0 where
  pub hash : Bytes
  pub kind : ℕ
  pub answers : List Bytes

abbrev pub no_supply : Supply
no_supply = record { hash = []; kind = 0; answers = [] }

-- Only announcements and answers change it; an answer counts under the current hash.
abbrev pub note : Event → Supply → Supply
note (announced hash t) a = record { hash = hash; kind = t; answers = [] }
note (provided hash content) a =
    if is_empty a.hash
    then a
    else if bytes_eq hash a.hash
    then record a { answers = content ∷ a.answers }
    else a
note (begun format cache_only sent clock) a = a
note (woken expired w hash) a = a
note cancelled a = a

abbrev pub note_all : List Event → Supply → Supply
note_all [] a = a
note_all (e ∷ es) a = note_all es (note e a)

abbrev pub IsAmong : Bytes → List Bytes → Type 0
IsAmong x [] = ⊥
IsAmong x (y ∷ ys) = (x ≡ y) ⊎ IsAmong x ys

-- The state stands for the announcement, and holds only its answers.
abbrev pub Tracks : RenderState → Supply → Type 0
Tracks s a =
    (s.pending_hash ≡ a.hash)
    × (s.pending_type ≡ a.kind)
    × ((s.pending_response ≢ []) → IsAmong s.pending_response a.answers)
    × (s.cached_valid ≡ true → IsAmong s.cached_response a.answers)

-- Bytes that are rendered are an answer.
abbrev pub Serves : Progress → Supply → Type 0
Serves left_empty a = Unit
Serves (renders bytes) a = IsAmong bytes a.answers
Serves waits a = Unit

nonempty : (xs : Bytes) → is_empty xs ≡ false → xs ≢ []
nonempty [] h e = ground arith
nonempty (x ∷ xs) h e = cc

signal-Tracks : (s : RenderState) (a : Supply) → Tracks s a → Tracks (signal s) a
unfolding signal
signal-Tracks s a h = elim (Bool-cases s.event) [ inl e ↦ rw e h | inr e ↦ rw e h ]

adopt-Tracks :
    (s : RenderState) (a : Supply)
    → Tracks s a
    → s.pending_response ≢ []
    → Tracks (adopt s).1 a × Serves (adopt s).0 a
unfolding adopt
adopt-Tracks s a (hash, kind, pending, cached) some_pending = (
  (hash, kind, λ none_left. absurd (none_left refl), λ e. pending some_pending),
  pending some_pending,
)

provide-Tracks :
    (hash content : Bytes) (s : RenderState) (a : Supply)
    → Tracks s a
    → Tracks (provide_render hash content s) (note (provided hash content) a)
unfolding provide_render
provide-Tracks hash content s a (same, kind, pending, cached) =
    elim (Bool-cases (is_empty s.pending_hash)) [
      | inl e ↦
          let e' : is_empty a.hash ≡ true = rw (sym same) e in
          rw (e, e') (same, kind, pending, cached)
      | inr e ↦
          let e' : is_empty a.hash ≡ false = rw (sym same) e in
          elim (Bool-cases (bytes_eq hash s.pending_hash)) [
            | inl f ↦
                let f' : bytes_eq hash a.hash ≡ true = rw (sym same) f in
                rw (e, e', f, f')
                  (signal-Tracks (record s { pending_response = content })
                    (record a { answers = content ∷ a.answers })
                    (same, kind, λ some_pending. inl refl, λ v. inr (cached v)))
            | inr f ↦
                let f' : bytes_eq hash a.hash ≡ false = rw (sym same) f in
                rw (e, e', f, f') (same, kind, pending, cached)
          ]
    ]

-- A part of OnRenderFormat, by what it comes to and the state behind it.
abbrev pub Keeps : Supply → Progress × RenderState → Type 0
Keeps a (p, s) = Tracks s a × Serves p a

abbrev Starts : Supply → Progress × RenderState × Option Bytes → Type 0
Starts a (p, s, frame) = Tracks s a × Serves p a

ask_parent-Starts :
    (cache_only sent : Bool) (requested clock : ℕ) (s : RenderState) (a : Supply)
    → Tracks s a
    → Starts a (ask_parent cache_only sent requested clock s)
unfolding ask_parent
ask_parent-Starts true sent requested clock s a h = (h, tt)
ask_parent-Starts false false requested clock s a h = (h, tt)
ask_parent-Starts false true requested clock s a h =
    (h, if-cases (λ p. Serves p a) s.event (λ e. tt) (λ e. tt))

begin_requested-Starts :
    (requested : Option ℕ) (cache_only sent : Bool) (clock : ℕ) (s : RenderState) (a : Supply)
    → Tracks s a
    → Starts a (begin_requested requested cache_only sent clock s)
unfolding begin_requested
begin_requested-Starts none cache_only sent clock s a h = (h, tt)
begin_requested-Starts (some requested) cache_only sent clock s a h =
    if-cases (Starts a) (is_empty s.pending_hash) (λ e. (h, tt))
      (λ e.
        if-cases (Starts a) (not (s.pending_type == requested)) (λ e. (h, tt))
          (λ e.
            if-cases (Starts a) s.cached_valid (λ v. (h, h.3 v))
              (λ v.
                if-cases (Starts a) (not (is_empty s.pending_response))
                  (λ n. adopt-Tracks s a h (nonempty s.pending_response (ground arith)))
                  (λ n. ask_parent-Starts cache_only sent requested clock s a h))))

after_wake-Keeps :
    (hash : Bytes) (s : RenderState) (a : Supply) → Tracks s a → Keeps a (after_wake hash s)
unfolding after_wake
after_wake-Keeps hash s a h =
    if-cases (Keeps a) (not (bytes_eq s.pending_hash hash)) (λ e. (h, tt))
      (λ e.
        if-cases (Keeps a) (not (is_empty s.pending_response))
          (λ n. adopt-Tracks s a h (nonempty s.pending_response (ground arith)))
          (λ n. if-cases (Keeps a) s.cached_valid (λ v. (h, h.3 v)) (λ v. (h, tt))))

after_pump-Serves :
    (hash : Bytes) (s : RenderState) (a : Supply) → Tracks s a → Serves (after_pump hash s) a
unfolding after_pump
after_pump-Serves hash s a h =
    if-cases (λ p. Serves p a) (not (bytes_eq s.pending_hash hash)) (λ e. tt)
      (λ e. if-cases (λ p. Serves p a) s.cached_valid (λ v. h.3 v) (λ v. tt))

pub wait_round-Keeps :
    (expired : Bool) (w : Wake) (hash : Bytes) (s : RenderState) (a : Supply)
    → Tracks s a
    → Keeps a (wait_round expired w hash s)
unfolding wait_round
wait_round-Keeps true w hash s a h = (h, tt)
wait_round-Keeps false signalled_wake hash s a h = after_wake-Keeps hash s a h
wait_round-Keeps false (message_wake got_quit) hash s a h =
    (h, if-cases (λ p. Serves p a) got_quit (λ e. tt) (λ e. after_pump-Serves hash s a h))
wait_round-Keeps false timeout_wake hash s a h = (h, tt)
wait_round-Keeps false failed_wake hash s a h = (h, tt)

pub occur-Tracks :
    (e : Event) (s : RenderState) (a : Supply) → Tracks s a → Tracks (occur e s) (note e a)
unfolding announce_render on_render_format
occur-Tracks (announced hash t) s a h = (refl, refl, λ n. n refl, λ e. ground arith)
occur-Tracks (provided hash content) s a h = provide-Tracks hash content s a h
occur-Tracks (begun format cache_only sent clock) s a h =
    (begin_requested-Starts (requested_type format) cache_only sent clock s a h).0
occur-Tracks (woken expired w hash) s a h = (wait_round-Keeps expired w hash s a h).0
occur-Tracks cancelled s a h = signal-Tracks s a h

pub occur_all-Tracks :
    (es : List Event) (s : RenderState) (a : Supply)
    → Tracks s a
    → Tracks (occur_all es s) (note_all es a)
occur_all-Tracks [] s a h = h
occur_all-Tracks (e ∷ es) s a h = occur_all-Tracks es (occur e s) (note e a) (occur-Tracks e s a h)

pub on_render_format-Serves :
    (format : Format) (cache_only sent : Bool) (clock : ℕ) (s : RenderState) (a : Supply)
    → Tracks s a
    → Serves (on_render_format format cache_only sent clock s).0 a
unfolding on_render_format
on_render_format-Serves format cache_only sent clock s a h =
    (begin_requested-Starts (requested_type format) cache_only sent clock s a h).1
