-- ===== src/Windows/Render/Renders.antt =====
-- windows/src/dispatch.cpp: what OnRenderFormat and its wait hand to the clipboard.
use clipboard_helper.Prelude.{
  ℕ, ◌≡◌, ◌≢◌, refl, sym, ap, ◌∙◌, Option, none, some, Bool, true, false, not, List, [], ◌∷◌, arith,
  ◌==◌, ==_iff, Bytes, is_empty, bytes_eq, bytes_eq_iff, bytes_eq_refl, if-cases,
}
use mathlib.Core.Path.{subst}
use clipboard_helper.Windows.Codec.Encoders.{encode_data_request}
use clipboard_helper.Windows.Render.{
  RenderState, new_render_state, announce_render, signal, provide_render, Format, requested_type,
  Progress, left_empty, renders, waits, adopt, ask_parent, begin_requested, on_render_format, Wake,
  signalled_wake, message_wake, timeout_wake, failed_wake, after_wake, after_pump, wait_round,
  Event, occur_all,
}
use clipboard_helper.Windows.Render.Supply.{
  Supply, no_supply, note_all, IsAmong, Tracks, Serves, wait_round-Keeps, occur_all-Tracks,
  on_render_format-Serves,
}

abbrev supply_of : List Event → Supply
supply_of es = note_all es no_supply

new-Tracks :
    (created : Bool) (es : List Event)
    → Tracks (occur_all es (new_render_state created)) (supply_of es)
new-Tracks created es =
    occur_all-Tracks es (new_render_state created) no_supply
      (refl, refl, λ n. n refl, λ e. ground arith)

-- A start that renders is of the announced type.
abbrev IsOfType : ℕ → Option ℕ → Progress × RenderState × Option Bytes → Type 0
IsOfType kind requested r = (bytes : Bytes) → r.0 ≡ renders bytes → requested ≡ some kind

empty-ne-renders : (bytes : Bytes) → left_empty ≢ renders bytes
empty-ne-renders bytes e = cc

waits-ne-renders : (bytes : Bytes) → waits ≢ renders bytes
waits-ne-renders bytes e = cc

begin_requested-IsOfType :
    (requested : Option ℕ) (cache_only sent : Bool) (clock : ℕ) (s : RenderState)
    → IsOfType s.pending_type requested (begin_requested requested cache_only sent clock s)
unfolding begin_requested
begin_requested-IsOfType none cache_only sent clock s = λ bytes e. absurd (empty-ne-renders bytes e)
begin_requested-IsOfType (some requested) cache_only sent clock s =
    let P = IsOfType s.pending_type (some requested) in
    if-cases P (is_empty s.pending_hash) (λ h bytes e. absurd (empty-ne-renders bytes e))
      (λ h.
        if-cases P (not (s.pending_type == requested))
          (λ t bytes e. absurd (empty-ne-renders bytes e))
          (λ t bytes e.
            let same : s.pending_type ≡ requested =
              ground (arith, ==_iff s.pending_type requested) in
            ap some (sym same)))

-- Behind any events on a new Dispatcher, other renders included: OnRenderFormat, if it renders bytes
-- at once, does so for the announced type, and the bytes are an answer that came for the current
-- announcement behind it.
pub on_render_format-Supply :
    (created : Bool) (es : List Event) (format : Format) (cache_only sent : Bool) (clock : ℕ)
    (bytes : Bytes)
    → (on_render_format format cache_only sent clock (occur_all es (new_render_state created))).0
      ≡ renders bytes
    → (requested_type format ≡ some (supply_of es).kind) × IsAmong bytes (supply_of es).answers
on_render_format-Supply created es format cache_only sent clock bytes h =
    let s = occur_all es (new_render_state created) in
    let tracks = new-Tracks created es in
    let served = on_render_format-Serves format cache_only sent clock s (supply_of es) tracks in
    (rw (sym (tracks.1)) (typed s h), subst (λ p. Serves p (supply_of es)) h served)
  where
    typed :
        (s : RenderState)
        → (on_render_format format cache_only sent clock s).0 ≡ renders bytes
        → requested_type format ≡ some s.pending_type
    typed s h =
        unfold on_render_format in
        begin_requested-IsOfType (requested_type format) cache_only sent clock s bytes h

-- A round that renders is of the current announcement.
abbrev IsOfHash : Bytes → Bytes → Progress → Type 0
IsOfHash pending hash p = (bytes : Bytes) → p ≡ renders bytes → pending ≡ hash

same_hash : (pending hash : Bytes) → not (bytes_eq pending hash) ≡ false → pending ≡ hash
same_hash pending hash h = ground (arith, bytes_eq_iff pending hash)

after_wake-IsOfHash :
    (hash : Bytes) (s : RenderState) → IsOfHash s.pending_hash hash (after_wake hash s).0
unfolding after_wake
after_wake-IsOfHash hash s =
    if-cases (λ (r : Progress × RenderState). IsOfHash s.pending_hash hash r.0)
      (not (bytes_eq s.pending_hash hash)) (λ h bytes e. absurd (empty-ne-renders bytes e))
      (λ h bytes e. same_hash s.pending_hash hash h)

after_pump-IsOfHash :
    (hash : Bytes) (s : RenderState) → IsOfHash s.pending_hash hash (after_pump hash s)
unfolding after_pump
after_pump-IsOfHash hash s =
    if-cases (IsOfHash s.pending_hash hash) (not (bytes_eq s.pending_hash hash))
      (λ h bytes e. absurd (empty-ne-renders bytes e))
      (λ h bytes e. same_hash s.pending_hash hash h)

wait_round-IsOfHash :
    (expired : Bool) (w : Wake) (hash : Bytes) (s : RenderState)
    → IsOfHash s.pending_hash hash (wait_round expired w hash s).0
unfolding wait_round
wait_round-IsOfHash true w hash s = λ bytes e. absurd (empty-ne-renders bytes e)
wait_round-IsOfHash false signalled_wake hash s = after_wake-IsOfHash hash s
wait_round-IsOfHash false (message_wake got_quit) hash s =
    if-cases (IsOfHash s.pending_hash hash) got_quit
      (λ q bytes e. absurd (empty-ne-renders bytes e)) (λ q. after_pump-IsOfHash hash s)
wait_round-IsOfHash false timeout_wake hash s = λ bytes e. absurd (empty-ne-renders bytes e)
wait_round-IsOfHash false failed_wake hash s = λ bytes e. absurd (empty-ne-renders bytes e)

-- Behind any events on a new Dispatcher, other renders included: a round of a wait that renders bytes
-- waits for the hash of the current announcement, and the bytes are an answer that came for that
-- announcement behind it.
pub wait_round-Supply :
    (created : Bool) (es : List Event) (expired : Bool) (w : Wake) (hash bytes : Bytes)
    → (wait_round expired w hash (occur_all es (new_render_state created))).0 ≡ renders bytes
    → ((supply_of es).hash ≡ hash) × IsAmong bytes (supply_of es).answers
wait_round-Supply created es expired w hash bytes h =
    let s = occur_all es (new_render_state created) in
    let tracks = new-Tracks created es in
    let kept = wait_round-Keeps expired w hash s (supply_of es) tracks in
    (
      sym tracks.0 ∙ wait_round-IsOfHash expired w hash s bytes h,
      subst (λ p. Serves p (supply_of es)) h kept.1,
    )

-- An announcement with its answer, for a format of its type, a hash and bytes that are not empty, an
-- event and a client: the render sends a DATA_REQUEST of the hash and the type, and waits; behind
-- ProvideData its wake renders the bytes; and a render of any format of the type, then, renders the
-- same bytes without a frame, also if it may only use the cache.
pub answered_render :
    (hash content : Bytes) (kind clock : ℕ) (format format' : Format) (cache_only sent : Bool)
    (s : RenderState)
    → s.event ≡ true
    → hash ≢ []
    → content ≢ []
    → requested_type format ≡ some kind
    → requested_type format' ≡ some kind
    → (on_render_format format false true clock (announce_render hash kind s)
        ≡ (waits, announce_render hash kind s, some (encode_data_request hash kind clock)))
      × ((wait_round false signalled_wake hash
            (provide_render hash content (announce_render hash kind s))).0
          ≡ renders content)
      × (on_render_format format' cache_only sent clock
            (wait_round false signalled_wake hash
              (provide_render hash content (announce_render hash kind s))).1
          ≡ (
            renders content,
            (wait_round false signalled_wake hash
                (provide_render hash content (announce_render hash kind s))).1,
            none,
          ))
unfolding on_render_format begin_requested ask_parent announce_render provide_render signal
    wait_round after_wake adopt
answered_render hash content kind clock format format' cache_only sent s up named full of_kind
      of_kind' =
    let h : is_empty hash ≡ false = not_empty hash named in
    let c : is_empty content ≡ false = not_empty content full in
    let k : (kind == kind) ≡ true = ground arith in
    let e = bytes_eq_refl hash in
    (
      rw (of_kind, h, k, up) refl,
      rw (h, e, up, e, c) refl,
      rw (of_kind', h, e, up, e, c, h, k) refl,
    )
  where
    not_empty : (xs : Bytes) → xs ≢ [] → is_empty xs ≡ false
    not_empty [] n = absurd (n refl)
    not_empty (x ∷ xs) n = refl

-- Behind an announcement of another hash: an answer for the old one changes nothing, and every round of
-- a wait for the old one ends with nothing rendered, whatever wakes it.
pub superseded_render :
    (hash hash' content : Bytes) (kind : ℕ) (expired : Bool) (w : Wake) (s : RenderState)
    → hash ≢ hash'
    → (provide_render hash content (announce_render hash' kind s) ≡ announce_render hash' kind s)
      × (wait_round expired w hash (announce_render hash' kind s)
          ≡ (left_empty, announce_render hash' kind s))
unfolding announce_render provide_render
superseded_render hash hash' content kind expired w s other =
    let differs : bytes_eq hash hash' ≡ false = ground (arith, bytes_eq_iff hash hash') in
    let gone : bytes_eq hash' hash ≡ false = ground (arith, bytes_eq_iff hash' hash) in
    (
      if-cases (λ r. r ≡ announce_render hash' kind s) (is_empty hash') (λ e. refl)
          (λ e. rw differs refl),
      ends expired w gone,
    )
  where
    ends :
        (expired : Bool) (w : Wake)
        → bytes_eq hash' hash ≡ false
        → wait_round expired w hash (announce_render hash' kind s)
          ≡ (left_empty, announce_render hash' kind s)
    ends true w gone = unfold wait_round in refl
    ends false signalled_wake gone = unfold wait_round after_wake announce_render in rw gone refl
    ends false (message_wake true) gone = unfold wait_round in refl
    ends false (message_wake false) gone =
        unfold wait_round after_pump announce_render in rw gone refl
    ends false timeout_wake gone = unfold wait_round in refl
    ends false failed_wake gone = unfold wait_round in refl
