-- ===== src/Ingestion.antt =====
-- What takes the messages of the provider in (src/ingestion): the connection to AISStream, its filter
-- of raw messages, and the normalizer.
pub mod Clean
pub mod Schema
pub mod Normalizer
pub mod RawFilter
pub mod Adapter
pub mod Registry
mod Tests
