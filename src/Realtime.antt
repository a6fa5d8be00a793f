-- ===== src/Realtime.antt =====
-- The realtime side of the server (src/realtime).
pub mod SendQueue
pub mod Gateway
pub mod Fanout
mod Tests
