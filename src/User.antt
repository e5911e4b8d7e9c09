-- ===== src/User.antt =====
-- The user service: user/src.
pub mod Model
pub mod UserDao
pub mod FriendDao
pub mod TokenManager
pub mod AuthService
pub mod FriendService
pub mod Managers
pub mod Startup
pub mod Simulation
mod Examples
mod SessionExamples
mod FriendExamples
mod DirectoryExamples
