-- ===== src/Mesos.antt =====
-- The reader of the Mesos files API, dcos-log/mesos/files/reader.
pub mod Types
pub mod Text
pub mod FileTime
pub mod Client
pub mod Options
pub mod Format
pub mod Setup
pub mod Reading
pub mod Chunks
pub mod Follow
pub mod Queue
pub mod Delivery
pub mod CopyOut
pub mod Window
pub mod Supply
pub mod WindowRead
pub mod WindowCopy
pub mod Start
pub mod Events
pub mod Resume
pub mod Totality
pub mod SeekBack
pub mod Upward
pub mod Tail
pub mod LastLines
pub mod WholeFile
pub mod Losses
