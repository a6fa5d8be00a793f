-- ===== src/Storage.antt =====
-- The storage of positions and profiles (src/storage): the daily partitions of the history, their
-- upkeep, the rows of vessels and what writes them.
pub mod Calendar
pub mod Digits
pub mod Partitions
pub mod Maintenance
pub mod Repository
pub mod Queries
pub mod Writer
mod Tests
