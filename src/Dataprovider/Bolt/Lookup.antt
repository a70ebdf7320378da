-- ===== src/Dataprovider/Bolt/Lookup.antt =====
-- What the lookups of bolt.go return after each change.
pub mod Add
pub mod Delete
pub mod Quota
