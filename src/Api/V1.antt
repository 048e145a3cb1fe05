-- ===== src/Api/V1.antt =====
-- The first version of the API, dcos-log/api/v1.
pub mod Params
pub mod Journal
pub mod Routes
pub mod Pages
pub mod StreamPages
pub mod Resuming
pub mod CursorPages
