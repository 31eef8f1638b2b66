-- ===== src/Assets.antt =====
-- The files and folders of the storage users: core/dao/user_assets.go, core/dao/asset_types.go, the
-- job of job/handler_delete_asset_group.go and the folder and listing handlers of
-- api/common.go and api/events.go.
pub mod Types
pub mod Prog
pub mod Rows
pub mod Store
pub mod Files
pub mod Overview
pub mod Listing
pub mod Folders
pub mod Jobs
mod Samples
mod Tests
