-- ===== src/Tests.antt =====
-- The theorems at concrete inputs: a small file behind a files API, a journal of two entries, and
-- requests.
mod Files
mod Logs
mod Requests
mod Settings
mod Seeks
mod Servers
mod Windows
mod Rotations
mod Pages
mod JournalPages
mod Times
mod Growth
mod Streams
mod Returns
