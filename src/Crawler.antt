-- ===== src/Crawler.antt =====
-- internal/crawler: which URLs are queued, and how a page is tried.
pub mod Domain
pub mod Admit
pub mod Once
pub mod Overlap
pub mod Page
pub mod Attempts
pub mod Dispatch
pub mod Aggregate
pub mod Downloader
mod Examples
