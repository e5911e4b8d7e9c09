-- ===== src/Gateway.antt =====
-- The gateway: gateway/main.cpp and gateway/src.
pub mod TcpConnection
pub mod HttpServer
pub mod GatewayServer
pub mod Settings
pub mod Startup
mod Examples
mod ServerExamples
mod StartupExamples
