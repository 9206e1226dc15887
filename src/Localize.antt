-- ===== src/Localize.antt =====
-- internal/localize: the saved copy of a site, as it is slimmed down.
pub mod Canonical
pub mod Dedup
