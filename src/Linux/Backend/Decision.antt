-- ===== src/Linux/Backend/Decision.antt =====
-- linux/src/backend_detector.cpp: the kinds of decision.
use clipboard_helper.Prelude.{◌≡◌, ◌↔◌, true, false, ◌&&◌, arith, is_empty, text}
use clipboard_helper.Linux.Backend.{
  wayland, force_xwayland, no_backend, GetEnvFn, is_gnome_desktop, detect_backend,
}

-- No display is reachable exactly if both variables are empty, GNOME or not; the environment is
-- overridden exactly on a reachable GNOME session; and Wayland is chosen exactly if its variable is
-- set on another desktop.
pub detect_backend-kinds :
    (getenv : GetEnvFn)
    → (((detect_backend getenv).kind ≡ no_backend) ↔ (
        (is_empty (getenv (text "DISPLAY")) && is_empty (getenv (text "WAYLAND_DISPLAY"))) ≡ true))
      × ((is_empty (detect_backend getenv).env_override_name ≡ false)
          ↔ ((detect_backend getenv).kind ≡ force_xwayland))
      × (((detect_backend getenv).kind ≡ wayland) ↔ (
          (is_gnome_desktop (getenv (text "XDG_CURRENT_DESKTOP")) ≡ false)
          × (is_empty (getenv (text "WAYLAND_DISPLAY")) ≡ false)))
unfolding detect_backend
detect_backend-kinds getenv = ground arith
