-- ===== src/Sync.antt =====
-- internal/sync: the concurrent map from strings, and the interface through which it is used.
pub mod Keyed
pub mod Sharded
pub mod Laws
pub mod Entries
pub mod Implements
pub mod Once
mod Examples
