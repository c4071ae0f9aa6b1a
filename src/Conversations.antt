-- ===== src/Conversations.antt =====
-- Conversations and their members: the tables, the repository and the service over it.
pub mod Tables
pub mod Repository
pub mod World
pub mod Service
