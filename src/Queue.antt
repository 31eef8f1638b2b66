-- ===== src/Queue.antt =====
-- The queues and counters in Redis: core/oprds/redis.go.
pub mod Redis
pub mod Client
pub mod Lists
pub mod AreaIds
pub mod Counters
pub mod Memory
mod Tests
