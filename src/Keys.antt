-- ===== src/Keys.antt =====
-- The API keys of the storage service: core/storage/common.go, core/storage/user.go and
-- core/storage/tenant.go.
pub mod Bytes
pub mod Padding
pub mod Cbc
pub mod Cipher
pub mod Codec
pub mod ApiKeys
mod Tests
