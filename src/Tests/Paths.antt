-- ===== src/Tests/Paths.antt =====
-- Witnesses and runs for the file lists and the choice of a backend.
use clipboard_helper.Prelude.{if◌then◌else◌, [], ◌∷◌, Bytes, text, bytes_eq}
use clipboard_helper.Linux.Backend.{GetEnvFn}

-- A path with a blank in it.
abbrev path : Bytes
path = b'/' ∷ b'a' ∷ b' ' ∷ []

-- A session with a Wayland display and no desktop name.
abbrev session : GetEnvFn
session name = if bytes_eq name (text "WAYLAND_DISPLAY") then text "wayland-0" else []
