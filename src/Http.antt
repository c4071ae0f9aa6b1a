-- ===== src/Http.antt =====
-- What the middlewares do with a request before its handler runs.
pub mod Versioning
pub mod Auth
