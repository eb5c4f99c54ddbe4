-- ===== src/Linux/Backend.antt =====
-- linux/src/backend_detector.cpp: the backend by the session's environment. A string is its bytes;
-- the environment is a function from names to values, empty for an unset name.
pub mod Desktop
pub mod Decision
use clipboard_helper.Prelude.{
  ℕ, ◌-◌, Option, none, some, Bool, true, false, not, ◌&&◌, ◌||◌, List, [], ◌∷◌, ◌++◌, leb, ◌==◌,
  if◌then◌else◌, Bytes, is_empty, bytes_eq, text,
}

-- `std::toupper` in the "C" locale.
unfoldable pub to_upper : ℕ → ℕ
to_upper c = if leb b'a' c && leb c b'z' then c - 32 else c

-- The loop of SplitAndUpper over the characters left, with the token so far.
unfoldable pub split_loop : Bytes → Bytes → List Bytes
split_loop token [] = if is_empty token then [] else token ∷ []
split_loop token (c ∷ s) =
    let next = split_loop [] s in
    let more = split_loop (token ++ to_upper c ∷ []) s in
    if c == b':' then (if is_empty token then next else token ∷ next) else more

unfoldable pub split_and_upper : Bytes → List Bytes
split_and_upper xdg = split_loop [] xdg

unfoldable pub is_gnome_token : Bytes → Bool
is_gnome_token t =
    bytes_eq t (text "GNOME") || (bytes_eq t (text "UNITY") || bytes_eq t (text "GNOME-CLASSIC"))

-- The loop of IsGnomeDesktop.
unfoldable pub has_gnome_token : List Bytes → Bool
has_gnome_token [] = false
has_gnome_token (t ∷ tokens) = is_gnome_token t || has_gnome_token tokens

unfoldable pub is_gnome_desktop : Bytes → Bool
is_gnome_desktop xdg_current_desktop = has_gnome_token (split_and_upper xdg_current_desktop)

pub data BackendKind : Type 0 where
  wayland : BackendKind
  x11 : BackendKind
  force_xwayland : BackendKind
  no_backend : BackendKind

pub record BackendDecision : Type 0 where
  pub kind : BackendKind
  pub reason : Bytes
  pub env_override_name : Bytes
  pub env_override_value : Bytes

abbrev pub GetEnvFn : Type 0
GetEnvFn = Bytes → Bytes

unfoldable pub detect_backend : GetEnvFn → BackendDecision
detect_backend getenv =
    let xdg_current_desktop = getenv (text "XDG_CURRENT_DESKTOP") in
    let wayland_display = getenv (text "WAYLAND_DISPLAY") in
    let x11_display = getenv (text "DISPLAY") in
    if is_gnome_desktop xdg_current_desktop
    then (if is_empty x11_display && is_empty wayland_display
        then record {
          kind = no_backend;
          reason =
              text "GNOME desktop detected but neither DISPLAY nor "
              ++ text "WAYLAND_DISPLAY is set; cannot reach any display server";
          env_override_name = [];
          env_override_value = [];
        }
        else record {
          kind = force_xwayland;
          reason =
              text "GNOME desktop ('"
              ++ (xdg_current_desktop
                  ++ (text "'); Mutter does not implement ext-data-control / "
                      ++ (text "wlr-data-control. Forcing QT_QPA_PLATFORM=xcb to route through "
                          ++ text "XWayland.")));
          env_override_name = text "QT_QPA_PLATFORM";
          env_override_value = text "xcb";
        })
    else if not (is_empty wayland_display)
    then record {
      kind = wayland;
      reason =
          text "WAYLAND_DISPLAY="
          ++ (wayland_display
              ++ (text " set (XDG_CURRENT_DESKTOP='"
                  ++ (xdg_current_desktop
                      ++ (text "'); using native Wayland backend (ext-data-control / "
                          ++ text "wlr-data-control)."))));
      env_override_name = [];
      env_override_value = [];
    }
    else if not (is_empty x11_display)
    then record {
      kind = x11;
      reason =
          text "DISPLAY="
          ++ (x11_display ++ text " set, no Wayland; using X11 backend (Qt xcb QClipboard).");
      env_override_name = [];
      env_override_value = [];
    }
    else record {
      kind = no_backend;
      reason =
          text "Neither WAYLAND_DISPLAY nor DISPLAY is set; cannot reach any "
          ++ (text "display server. Helper must run inside an interactive graphical "
              ++ text "session.");
      env_override_name = [];
      env_override_value = [];
    }

unfoldable pub should_fallback_to_xwayland : Bool → Bool → Bool
should_fallback_to_xwayland wayland_has_data_control have_display =
    not wayland_has_data_control && have_display

-- DetectBackendAndApplyEnv: the decision, and the environment behind setenv.
unfoldable pub detect_backend_and_apply_env : GetEnvFn → BackendDecision × GetEnvFn
detect_backend_and_apply_env getenv =
    let decision = detect_backend getenv in
    if not (is_empty decision.env_override_name)
    then (
      decision,
      λ name.
          if bytes_eq name decision.env_override_name
          then decision.env_override_value
          else getenv name,
    )
    else (decision, getenv)
