-- ===== src/Storage.antt =====
-- internal/storage: where the content of a URL is kept.
pub mod Clean
pub mod Path
pub mod Incremental
