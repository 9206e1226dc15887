-- ===== src/Util.antt =====
-- internal/util: the containers that the crawler shares.
pub mod Lru
pub mod BoundedQueue
mod Examples
