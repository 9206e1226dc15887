-- ===== src/Crawler/Dispatch.antt =====
-- internal/crawler/start.go: the dispatch loop of `Start`, and the goroutines that it spawns.
pub mod State
pub mod Loop
pub mod System
pub mod Slots
pub mod Ends
pub mod Cancelled
pub mod Limits
pub mod Early
mod Examples
