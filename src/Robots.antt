-- ===== src/Robots.antt =====
-- internal/robots/rules.go: what robots.txt lets the crawler visit. Texts are lists of bytes.
pub mod Match
pub mod Evaluate
pub mod Longest
pub mod Parse
pub mod Groups
pub mod Cache
pub mod Fresh
mod Examples
