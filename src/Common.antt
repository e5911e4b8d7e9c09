-- ===== src/Common.antt =====
-- The shared library of the services: common/src.
pub mod Effect
pub mod Retry
pub mod Chars
pub mod StringUtils
pub mod Config
pub mod MysqlPool
pub mod MongoPool
pub mod Logger
pub mod RabbitmqClient
pub mod RedisClient
pub mod Http
pub mod Startup
pub mod Sql
pub mod SampleFile
mod Examples
mod PoolExamples
mod BrokerExamples
