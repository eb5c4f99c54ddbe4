-- ===== src/Windows/Sta.antt =====
-- windows/src/sta_worker.cpp: the STA thread. A callback acts on a state `S` of the program; an
-- exception that it throws is swallowed, and the state is then what it has made by the throw. The queue
-- holds the names of tasks, which `run` gives a meaning, as in the work queue.
pub mod Lifecycle
pub mod Cached
use clipboard_helper.Prelude.{
  ℕ, ◌+◌, Option, none, some, Bool, true, false, ◌&&◌, List, [], ◌∷◌, ◌++◌, if◌then◌else◌,
}
use clipboard_helper.Windows.WorkQueue.{Outcome, push, drop_all, drain}
use clipboard_helper.Windows.Render.{Format, cf_unicodetext, cf_dibv5, cf_dib}
use clipboard_helper.Windows.Formats.{enter_guard, leave_guard}

-- A message of the window. For WM_RENDERALLFORMATS: whether OpenClipboard succeeds, and which formats
-- are available.
pub data Message : Type 0 where
  work clipboard_update other_message : Message
  render_format : Format → Message
  render_all_formats : Bool → (Format → Bool) → Message

-- `none` is the empty std::function. A render is given the guard's counter, the format and
-- `cache_only`.
pub record Callbacks (S : Type 0) : Type 0 where
  pub on_clipboard_changed : Option (S → S)
  pub on_render_format : Option (ℕ → Format → Bool → S → S)

pub record Sta (S : Type 0) : Type 0 where
  pub state : S
  pub queue : List ℕ
  pub held : ℕ

-- `fmts` of WM_RENDERALLFORMATS.
abbrev pub all_formats : List Format
all_formats = cf_unicodetext ∷ cf_dibv5 ∷ cf_dib ∷ []

module _ {S : Type 0} where
  unfoldable pub call_changed : Option (S → S) → S → S
  call_changed none s = s
  call_changed (some cb) s = cb s

  -- The loop of WM_RENDERALLFORMATS.
  unfoldable pub render_available : (Format → Bool → S → S) → (Format → Bool) → List Format → S → S
  render_available cb available [] s = s
  render_available cb available (fmt ∷ fmts) s =
      render_available cb available fmts (if available fmt then cb fmt true s else s)

  -- WM_RENDERFORMAT, with the guard around the callback.
  unfoldable pub call_render : Option (ℕ → Format → Bool → S → S) → Format → Sta S → Sta S
  call_render none fmt w = w
  call_render (some cb) fmt w =
      let inside = enter_guard w.held in
      record w { state = cb inside fmt false w.state; held = leave_guard inside }

  unfoldable pub call_render_all :
      Option (ℕ → Format → Bool → S → S) → Bool → (Format → Bool) → Sta S → Sta S
  call_render_all none opens available w = w
  call_render_all (some cb) opens available w =
      let inside = enter_guard w.held in
      if opens
      then record w {
        state = render_available (cb inside) available all_formats w.state;
        held = leave_guard inside;
      }
      else w

module _ {S : Type 0} (run : ℕ → S → Outcome S) (cbs : Callbacks S) where
  unfoldable pub drain_work_queue : Sta S → Sta S
  drain_work_queue w = let r = drain run w.state w.queue in record w { state = r.0; queue = r.1 }

  unfoldable pub wnd_proc : Message → Sta S → Sta S
  unfolding drain_work_queue call_changed call_render call_render_all
  wnd_proc work w = drain_work_queue w
  wnd_proc clipboard_update w = record w { state = call_changed cbs.on_clipboard_changed w.state }
  wnd_proc (render_format fmt) w = call_render cbs.on_render_format fmt w
  wnd_proc (render_all_formats opens available) w =
      call_render_all cbs.on_render_format opens available w
  wnd_proc other_message w = w

  -- PumpMessages over the messages up to WM_QUIT.
  unfoldable pub pump_messages : List Message → Sta S → Sta S
  pump_messages [] w = w
  pump_messages (m ∷ ms) w = pump_messages ms (wnd_proc m w)

-- PostTask: the queue, and whether WM_LEVIATHAN_WORK is posted; `window` is whether hwnd_atom_ is set.
unfoldable pub post_task : Bool → ℕ → List ℕ → List ℕ × Bool
post_task window task queue = (push task queue, window)
