-- ===== src/Journal.antt =====
-- The journal reader, dcos-log/journal/reader.
pub mod Cursor
pub mod CursorLaws
pub mod Types
pub mod Format
pub mod Options
pub mod Reading
pub mod Delivery
pub mod Entries
pub mod Idle
pub mod Limit
pub mod Turns
pub mod Stream
pub mod StreamCopy
pub mod StreamFollow
pub mod Rotation
pub mod Settings
