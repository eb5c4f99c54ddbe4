-- ===== src/Linux.antt =====
-- The Linux helper, linux/src.
pub mod Codec
pub mod Manager
pub mod Dispatch
pub mod Socket
pub mod UriList
pub mod Backend
pub mod Echo
pub mod Watchdog
pub mod Wayland
pub mod X11
