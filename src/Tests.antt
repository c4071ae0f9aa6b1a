-- ===== src/Tests.antt =====
-- Concrete runs of the model and instances of its theorems.
mod Conversations
mod Cache
mod Realtime
mod Presence
mod Messages
mod Receipts
mod Jobs
mod Database
mod Dispatcher
mod Admission
mod Settings
mod Events
