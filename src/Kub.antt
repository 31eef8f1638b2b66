-- ===== src/Kub.antt =====
-- The passwords of cluster accounts: core/kubesphere/tool.go.
pub mod Password
pub mod Shuffle
pub mod Classes
mod Tests
