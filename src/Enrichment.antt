-- ===== src/Enrichment.antt =====
-- The enrichment of vessels with sanctions (src/enrichment).
pub mod Matcher
pub mod Requester
pub mod Reconciler
pub mod Processor
pub mod Tests
