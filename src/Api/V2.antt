-- ===== src/Api/V2.antt =====
-- The second version of the API, dcos-log/api/v2.
pub mod Params
pub mod Redirect
pub mod Places
pub mod Files
pub mod Component
pub mod Routes
pub mod Resume
pub mod Streaming
pub mod Asking
pub mod Sessions
pub mod Pages
pub mod StartPages
pub mod TailPages
pub mod EventPages
pub mod JournalSettings
pub mod JournalPages
pub mod JournalStreams
