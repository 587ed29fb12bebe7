-- ===== src/Sockets.antt =====
-- portal/websockets/manager.py and portal/websockets/handlers.py: the connections of interpreters to
-- their booths. A WebSocket stands for its `id(..)`, a time for a whole number, and what the code makes
-- up (UUIDs, times, secrets) for an argument. JSON is read where the code reads it: a field of a message
-- has the type that the code expects, or is absent.
pub mod Messages
pub mod Loop
pub mod Refine
pub mod OnAir
pub mod Silence
pub mod GoLive
pub mod Replies
pub mod Refusal
mod Tests
