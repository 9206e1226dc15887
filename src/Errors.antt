-- ===== src/Errors.antt =====
-- internal/errors: the kinds of crawl errors, and the classification of arbitrary errors.
pub mod Contains
pub mod Kinds
pub mod Classify
pub mod Matching
mod Examples
