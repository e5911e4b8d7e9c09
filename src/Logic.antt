-- ===== src/Logic.antt =====
-- The logic service: logic/src and the handler of logic/main.cpp.
pub mod Trie
pub mod SensitiveFilter
pub mod ChatHandler
pub mod Processor
pub mod Startup
mod Examples
mod StartupExamples
