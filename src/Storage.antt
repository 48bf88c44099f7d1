-- ===== src/Storage.antt =====
-- src/storage: the Redis and the time series client.
pub mod Redis
pub mod Tsdb
