-- ===== src/Token.antt =====
-- The token faucet: core/token/manager.go, its statements in core/dao/platform.go and its handlers
-- in api/platform.go.
pub mod Calendar
pub mod Prog
pub mod Store
pub mod Manager
pub mod Run
mod Tests
