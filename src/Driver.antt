-- ===== src/Driver.antt =====
-- driver: versions of the database, identifiers and metrics.
pub mod Version
pub mod Identifier
pub mod Metrics
pub mod Session
