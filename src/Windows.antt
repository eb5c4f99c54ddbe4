-- ===== src/Windows.antt =====
-- The Windows helper, windows/src.
pub mod Codec
pub mod WorkQueue
pub mod ChunkProvider
pub mod Render
pub mod Dispatch
pub mod Pipe
pub mod Stream
pub mod Formats
pub mod Access
pub mod Sta
pub mod DataObject
