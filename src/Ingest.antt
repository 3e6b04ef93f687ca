-- ===== src/Ingest.antt =====
-- internal/ingest: its configuration, feed normalisation, the differ and the polls; and the command
-- that runs them.
pub mod Config
pub mod Normalizer
pub mod Differ
pub mod Poller
pub mod Ingestor
