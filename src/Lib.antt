-- ===== src/Lib.antt =====
-- Verification of the realtime-chat server: a model of its core in a cubical type theory, with the
-- theorems that make it correct. Paths are those of the repository.
--
-- The parts and their files:
--
-- - Common: Booleans and orders on the native numbers, maps as association lists with one entry per
--   key, sets as lists without repetition, 64-bit decimals, and equality as an interface. Texts are
--   lists of bytes (Bytes); `codes` writes one.
-- - Errors: ErrorType, its HTTP status and its code (include/rtc/errors). An exception is a value of
--   AppException, and a function that may throw returns a Result.
-- - Security/Role: roles, permissions and the bit masks that grant them
--   (include/rtc/security/role.hpp).
-- - Cache/Store: the in-memory cache (src/cache/in_memory_cache_store.cpp). View says what a client
--   sees of a store at an instant; Laws, Counters and Purge are about the methods.
-- - RateLimit: the fixed-window limiter over that store (src/ratelimit/rate_limiter.cpp).
-- - Authorization: roles and suspensions behind that store
--   (src/services/authorization_service.cpp). The user table is a parameter of every method.
-- - Presence: who is online on this node and on others (src/services/presence_service.cpp). What is
--   announced to the other nodes is logged, so that replication can be stated.
-- - Validation: the field validators (src/validation/validators.cpp).
-- - Json: JSON values. Text to value and back is the JSON library's and is not modelled.
-- - Realtime: rooms (src/realtime/room_manager.cpp), sessions (src/realtime/session_manager.cpp), the
--   wire protocol (src/realtime/protocol.cpp) and the connection manager that delivers frames over
--   them and forwards them to the cluster (src/realtime/connection_manager.cpp). Multimap is the map
--   from a key to a set that rooms and sessions share.
-- - Conversations: the tables, the repository's SQL statements as functions on them
--   (src/repositories/pg_conversation_repository.cpp, with the constraints of
--   migrations/0003_create_conversations.sql), and the service
--   (src/services/conversation_service.cpp): World holds its state and the checks that its methods
--   share, Service the methods with their guards.
-- - Messages: messages and their attachments (src/repositories/pg_message_repository.cpp) and the
--   service that sends, edits and deletes them (src/services/message_service.cpp).
-- - Receipts: read receipts (src/services/read_receipt_service.cpp,
--   src/repositories/pg_read_receipt_repository.cpp).
-- - Tracing: the traceparent header (src/tracing/trace_context.cpp).
-- - Reactions: src/services/reaction_service.cpp with its table; Notifications: who is told of what
--   (src/services/notification_dispatcher.cpp).
-- - Realtime.Dispatcher: what a connection's opening, frames and closing do to all of the above
--   (src/realtime/event_dispatcher.cpp), with Messages.Request, the body of a frame that sends
--   (src/dto/message_dto.cpp).
--   Realtime.Failures: the services that it calls when the database fails on the way.
-- - Realtime.Heartbeat: the tick that closes idle connections (src/realtime/heartbeat_monitor.cpp).
-- - Security.Sessions: login sessions and the exchange of refresh tokens
--   (src/services/session_service.cpp, src/repositories/pg_session_repository.cpp).
-- - Http: API versions in paths (src/middlewares/versioning_middleware.cpp) and the admission of
--   requests by token (src/middlewares/auth_middleware.cpp).
-- - Features: feature flags (src/features/feature_flags.cpp). Environment and Settings: the
--   configuration (src/config/config.cpp).
-- - Cache.Presence: the counts of connections that instances share (src/cache/presence_cache.cpp).
-- - Paging: the limits of lists (src/dto/pagination.cpp).
-- - Events: the registration of subscribers and the dispatch of domain events
--   (src/events/event_dispatcher.cpp); Events.Bus: the bus with an executor and without, as
--   interleavings (src/events/in_process_event_bus.cpp).
-- - Jobs.Executor: the background executor as interleavings of its owner, submitters and workers
--   (src/jobs/background_executor.cpp). Database.Pool: the pool of connections as interleavings of
--   `acquire` and the ends of leases (src/database/connection_pool.cpp).
-- - Tests: concrete runs, and each theorem with parameters applied to concrete values.
--
-- How the state is modelled. A method that holds its mutex, or runs in one transaction, is one step:
-- a function from the state to its answer and the next state. Clocks are arguments. Collaborators
-- that only receive (the broadcaster, the notifier, the event publisher, the cluster bus) are logs in
-- the state. Ids are natural numbers: the database hands out positive ones. Integers that may be
-- negative, such as a time to live, are those of Common/Int.
--
-- Bounds. `incr` adds without wrapping; the theorems that read a counter back bound it by the
-- greatest 64-bit integer. Printing the decimal of n runs on the fuel n + 1, which is more than its
-- number of digits; every other loop is structural recursion on a list or a count.
--
-- Not modelled: the times at which rows were created and updated, paging of lists, the text of
-- JSON, sockets and a send that fails, PostgreSQL and Redis themselves, controllers, metrics and
-- logging. A method of a service that runs several transactions, such as `leave` of the conversation
-- service and `rotate` of the session service, is one step too: what another call does between its
-- transactions is not modelled. Where threads do interleave in the model (the executor, the pool of
-- connections, the event bus, the announcements of presence) their steps are those of the code between
-- its locks. The database fails only in the calls of the realtime dispatcher, at the places that
-- Realtime/Failures names.
pub mod Common
pub mod Security
pub mod Cache
pub mod Errors
pub mod RateLimit
pub mod Authorization
pub mod Presence
pub mod Validation
pub mod Conversations
pub mod Json
pub mod Realtime
pub mod Messages
pub mod Tracing
pub mod Receipts
pub mod Jobs
pub mod Paging
pub mod Notifications
pub mod Reactions
pub mod Events
pub mod Environment
pub mod Settings
pub mod Http
pub mod Features
pub mod Database
pub mod Tests
