-- ===== src/Windows/Sta/Cached.antt =====
-- windows/src/sta_worker.cpp with OnRenderFormat of dispatch.cpp as its callback: what the Dispatcher
-- does while the clipboard's ownership goes away.
use clipboard_helper.Prelude.{
  ℕ, ◌+◌, ◌≡◌, refl, ◌∙◌, Option, none, some, Bool, true, not, List, [], ◌∷◌, ◌==◌, if◌then◌else◌,
  if-cases, arith, Bytes, is_empty,
}
use clipboard_helper.Windows.WorkQueue.{Outcome}
use clipboard_helper.Windows.Render.{
  RenderState, Format, Progress, left_empty, renders, waits, adopt, ask_parent, begin_requested,
  requested_type, on_render_format, Event, begun, occur_all, new_render_state,
}
use clipboard_helper.Windows.Render.Supply.{
  Supply, no_supply, note_all, IsAmong, Tracks, Serves, occur-Tracks, occur_all-Tracks,
  on_render_format-Serves,
}
use clipboard_helper.Windows.Sta.{
  render_all_formats, Callbacks, Sta, render_available, all_formats, wnd_proc,
}
use clipboard_helper.Windows.Formats.{enter_guard, leave_guard}

-- The Dispatcher as the STA thread sees it: the frames that renders have sent, what they have put on the
-- clipboard, and how many have gone on to wait.
pub record Rendering : Type 0 where
  pub render : RenderState
  pub frames : List Bytes
  pub rendered : List Bytes
  pub waiting : ℕ

unfoldable pub add_progress : Progress → Rendering → Rendering
add_progress left_empty s = s
add_progress (renders bytes) s = record s { rendered = bytes ∷ s.rendered }
add_progress waits s = record s { waiting = s.waiting + 1 }

abbrev pub add_sent : Option Bytes → List Bytes → List Bytes
add_sent none frames = frames
add_sent (some f) frames = f ∷ frames

-- OnRenderFormat up to its wait; `sent` is whether SendFrame succeeds.
unfoldable pub render_callback : Bool → ℕ → ℕ → Format → Bool → Rendering → Rendering
unfolding add_progress
render_callback sent clock held fmt cache_only s =
    let r = on_render_format fmt cache_only sent clock s.render in
    add_progress r.0 (record s { render = r.1; frames = add_sent r.2 s.frames })

-- A start that neither sends a frame nor waits.
abbrev IsLocal : Progress × RenderState × Option Bytes → Type 0
IsLocal (left_empty, s, frame) = frame ≡ none
IsLocal (renders bytes, s, frame) = frame ≡ none
IsLocal (waits, s, frame) = ⊥

cached-IsLocal :
    (fmt : Format) (sent : Bool) (clock : ℕ) (s : RenderState)
    → IsLocal (on_render_format fmt true sent clock s)
unfolding on_render_format
cached-IsLocal fmt sent clock s = of (requested_type fmt)
  where
    of : (t : Option ℕ) → IsLocal (begin_requested t true sent clock s)
    of none = unfold begin_requested in refl
    of (some t) =
        unfold begin_requested ask_parent adopt in
        if-cases IsLocal (is_empty s.pending_hash) (λ _. refl)
          (λ _.
            if-cases IsLocal (not (s.pending_type == t)) (λ _. refl)
              (λ _.
                if-cases IsLocal s.cached_valid (λ _. refl)
                  (λ _.
                    if-cases IsLocal (not (is_empty s.pending_response)) (λ _. refl) (λ _. refl))))

-- Everything on the list is an answer.
abbrev pub AllAmong : List Bytes → Supply → Type 0
AllAmong [] a = Unit
AllAmong (b ∷ bs) a = IsAmong b a.answers × AllAmong bs a

-- A step that sends and waits for nothing, and renders answers only, on top of what was rendered.
abbrev IsQuick : Supply → Rendering → Rendering → Type 0
IsQuick a s s' =
    (s'.frames ≡ s.frames)
    × (s'.waiting ≡ s.waiting)
    × Tracks s'.render a
    × (AllAmong s.rendered a → AllAmong s'.rendered a)

progress-IsQuick :
    (r : Progress × RenderState × Option Bytes) (s : Rendering) (a : Supply)
    → IsLocal r
    → Tracks r.1 a
    → Serves r.0 a
    → IsQuick a s (add_progress r.0 (record s { render = r.1; frames = add_sent r.2 s.frames }))
unfolding add_progress
progress-IsQuick (left_empty, t, frame) s a l h v = rw l (refl, refl, h, λ all. all)
progress-IsQuick (renders bytes, t, frame) s a l h v = rw l (refl, refl, h, λ all. (v, all))
progress-IsQuick (waits, t, frame) s a l h v = absurd l

callback-IsQuick :
    (sent : Bool) (clock held : ℕ) (fmt : Format) (s : Rendering) (a : Supply)
    → Tracks s.render a
    → IsQuick a s (render_callback sent clock held fmt true s)
unfolding render_callback
callback-IsQuick sent clock held fmt s a h =
    progress-IsQuick (on_render_format fmt true sent clock s.render) s a
      (cached-IsLocal fmt sent clock s.render)
      (occur-Tracks (begun fmt true sent clock) s.render a h)
      (on_render_format-Serves fmt true sent clock s.render a h)

then-IsQuick : (a : Supply) (s t u : Rendering) → IsQuick a s t → IsQuick a t u → IsQuick a s u
then-IsQuick a s t u (f, w, k, all) (f', w', k', all') = (f' ∙ f, w' ∙ w, k', λ h. all' (all h))

available-IsQuick :
    (sent : Bool) (clock held : ℕ) (available : Format → Bool) (fmts : List Format) (s : Rendering)
    (a : Supply)
    → Tracks s.render a
    → IsQuick a s (render_available (render_callback sent clock held) available fmts s)
unfolding render_available
available-IsQuick sent clock held available [] s a h = (refl, refl, h, λ all. all)
available-IsQuick sent clock held available (fmt ∷ fmts) s a h =
    let next = if available fmt then render_callback sent clock held fmt true s else s in
    let first : IsQuick a s next =
      if-cases (IsQuick a s) (available fmt) (λ _. callback-IsQuick sent clock held fmt s a h)
        (λ _. (refl, refl, h, λ all. all)) in
    then-IsQuick a s next (render_available (render_callback sent clock held) available fmts next)
      first (available-IsQuick sent clock held available fmts next a first.2)

-- WM_RENDERALLFORMATS with the Dispatcher's OnRenderFormat, behind any events on a new Dispatcher and
-- with nothing rendered yet: whichever formats are available, no frame is sent, no render goes on to
-- wait, and all that is rendered are answers that came for the current announcement behind it.
pub render_all-AllAmong :
    (run : ℕ → Rendering → Outcome Rendering) (changed : Option (Rendering → Rendering))
    (es : List Event) (created sent opens : Bool) (clock : ℕ) (available : Format → Bool)
    (w : Sta Rendering)
    → w.state.render ≡ occur_all es (new_render_state created)
    → w.state.rendered ≡ []
    → let cbs : Callbacks Rendering = record {
      on_clipboard_changed = changed;
      on_render_format = some (render_callback sent clock);
    } in
      let w' = wnd_proc run cbs (render_all_formats opens available) w in
      (w'.state.frames ≡ w.state.frames)
      × (w'.state.waiting ≡ w.state.waiting)
      × AllAmong w'.state.rendered (note_all es no_supply)
      × (w'.held ≡ w.held)
unfolding wnd_proc enter_guard leave_guard
render_all-AllAmong run changed es created sent opens clock available w at_render nothing =
    let a = note_all es no_supply in
    let tracks : Tracks w.state.render a = rw at_render (
      occur_all-Tracks es (new_render_state created) no_supply
        (refl, refl, λ n. n refl, λ e. ground arith)) in
    let empty : AllAmong w.state.rendered a = rw nothing tt in
    let q = available-IsQuick sent clock (w.held + 1) available all_formats w.state a tracks in
    if-cases
      (λ (w' : Sta Rendering).
        (w'.state.frames ≡ w.state.frames)
        × (w'.state.waiting ≡ w.state.waiting)
        × AllAmong w'.state.rendered a
        × (w'.held ≡ w.held))
      opens (λ _. (q.0, q.1, q.3 empty, omega arith)) (λ _. (refl, refl, empty, refl))
