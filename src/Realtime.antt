-- ===== src/Realtime.antt =====
-- The WebSocket side: rooms, sessions, presence and delivery.
pub mod Multimap
pub mod Rooms
pub mod Protocol
pub mod Sessions
pub mod Connections
pub mod Failures
pub mod Dispatcher
pub mod Heartbeat
