-- ===== src/Dataprovider.antt =====
-- The package dataprovider: users, their store, authentication and quota.
pub mod User
pub mod Errors
pub mod Validate
pub mod Password
pub mod Bolt
pub mod Facade
pub mod Expiry
