-- ===== src/Api.antt =====
-- The HTTP API, dcos-log/api.
pub mod Types
pub mod Middleware
pub mod V2
pub mod V1
pub mod JournalPage
pub mod JournalStream
pub mod Routing
pub mod Router
pub mod Server
pub mod Access
pub mod TaskRoutes
pub mod Requests
