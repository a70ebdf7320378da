-- ===== src/Tests.antt =====
-- Concrete stores, codecs and libraries, and the theorems' witnesses at them.
pub mod Codec
pub mod Buckets
pub mod Data
mod Store
mod Logins
mod Dates
mod Server
mod Moves
mod Quota
pub mod Machine
mod Requests
mod Copies
mod Rest
mod Terminals
