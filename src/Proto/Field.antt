-- ===== src/Proto/Field.antt =====
-- The field numbers of helper_proto.h. The prefixes of the source are the child modules: `kField` is
-- Message, `kCDField` ClipboardData, and so on.
pub mod Message
pub mod ClipboardData
pub mod Announcement
pub mod DataRequest
pub mod ProvideData
pub mod FileMetadata
pub mod FileChunkRequest
pub mod FileChunkData
