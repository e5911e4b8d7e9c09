-- ===== src/Admin.antt =====
-- The admin service.
pub mod ApiHandler
pub mod AdminServer
mod Examples
