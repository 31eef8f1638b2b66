-- ===== src/Order.antt =====
-- The container platform's orders: core/types.go, core/order, the order queries of
-- core/dao/platform.go and the order handlers of api/platform.go.
pub mod Types
pub mod Params
pub mod Price
pub mod Prog
pub mod Store
pub mod Manager
pub mod Handlers
pub mod Run
mod Tests
