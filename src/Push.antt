-- ===== src/Push.antt =====
-- The push service: push/src.
pub mod PushManager
pub mod Clients
pub mod Startup
mod Examples
mod StartupExamples
