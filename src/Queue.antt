-- ===== src/Queue.antt =====
-- internal/queue: the crawl queue, and the patterns and paths by which URLs are admitted to it.
pub mod Glob
pub mod Item
pub mod Priority
pub mod Once
pub mod Behaviour
pub mod Strip
pub mod Sorted
mod Examples
