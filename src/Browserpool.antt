-- ===== src/Browserpool.antt =====
-- internal/browserpool: the browsers that pages are rendered in.
pub mod Pool
pub mod Selects
pub mod Acquires
pub mod Health
mod Examples
