-- ===== src/Dataprovider/Bolt.antt =====
-- dataprovider/bolt.go: the user store, over a key/value database with two buckets: `users`
-- (username to user as JSON) and `users_id_idx` (8-byte id to username).
pub mod Store
pub mod Provider
pub mod Id
pub mod Linked
pub mod Lookup
pub mod Listing
pub mod Abstract
