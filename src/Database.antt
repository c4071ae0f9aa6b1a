-- ===== src/Database.antt =====
-- Access to PostgreSQL: include/rtc/database and src/database.
pub mod Pool
