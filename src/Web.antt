-- ===== src/Web.antt =====
-- The web client (web/src).
pub mod MergeReducer
pub mod Vessels
pub mod Client
pub mod Sync
pub mod View
pub mod Tests
