-- ===== src/ReadModel.antt =====
-- read-model-updater: domain events become rows of the read model and entries of the cache.
pub mod Events
pub mod Tasks
pub mod Users
pub mod Process
pub mod Cache
pub mod Tables
