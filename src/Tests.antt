-- ===== src/Tests.antt =====
-- The theorems at concrete inputs, and runs of the definitions.
mod Wire
mod Linux
mod Socket
mod Paths
mod Windows
mod Session
mod Chunks
mod Wayland
mod Render
mod Dispatcher
mod Servers
mod X11
mod Formats
mod Access
