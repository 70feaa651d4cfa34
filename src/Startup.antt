-- ===== src/Startup.antt =====
-- What the three services make of their environment before they listen. `log.Fatal` and `panic` are
-- errors with a message; the message leaves out what a library says of its own error.
pub mod Redis
pub mod Settings
pub mod Services
pub mod Handler
pub mod Sizes
