-- ===== src/Message.antt =====
-- The message service: message/src.
pub mod Model
pub mod MsgBodyDao
pub mod MsgIndexDao
pub mod MessageService
pub mod Storage
pub mod Startup
pub mod Simulation
mod DeliveryExamples
mod Examples
mod StartupExamples
