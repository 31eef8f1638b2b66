-- ===== src/Sync.antt =====
-- The rounds that synchronise files between areas: `SyncShedulers`, `getSyncSuccessHash` and
-- `checkSyncState` (job/common.go), a payload of `syncUserScheduler` and an area of
-- `getSyncSuccessAsset` (job/cron.go); and the traffic of files: `syncDashboard`.
pub mod States
pub mod Rows
pub mod Records
pub mod Success
pub mod Areas
pub mod Round
pub mod Marks
pub mod Ending
pub mod Traffic
pub mod Largest
mod Hours
mod Tests
