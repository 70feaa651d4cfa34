-- ===== src/Api.antt =====
-- prism-api/api: the HTTP front end of the write and read side.
pub mod Timestamps
pub mod Base36
pub mod Commands
pub mod Pool
pub mod Metrics
pub mod Handlers
