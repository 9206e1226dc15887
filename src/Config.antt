-- ===== src/Config.antt =====
-- internal/config: the configuration, its defaults and its validation.
pub mod Types
pub mod Default
pub mod Validate
pub mod Accepts
pub mod Conditions
pub mod Sections
pub mod Limits
pub mod Decides
mod Examples
