-- ===== src/Examples.antt =====
-- The theorems at concrete inputs, and runs of the definitions.
mod Api
mod Tokens
mod Storage
mod Enqueue
mod Tables
mod UserTables
mod Tasks
mod Process
mod Cache
mod Stream
mod Handlers
mod Auth
mod Metrics
mod Workers
mod Sse
mod StorageInit
mod Startup
