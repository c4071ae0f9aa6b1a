-- ===== src/Security.antt =====
-- Roles and permissions.
pub mod Role
pub mod Sessions
