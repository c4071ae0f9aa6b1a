-- ===== src/Cache.antt =====
-- The in-memory cache and what is built on it.
pub mod Store
pub mod Presence
