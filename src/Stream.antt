-- ===== src/Stream.antt =====
-- stream-service.
pub mod Registry
pub mod Messages
pub mod Subscription
pub mod Keys
pub mod Hub
pub mod Sse
