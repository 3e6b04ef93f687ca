-- ===== src/Processor.antt =====
-- cmd/processor: enrichment of events, retries, the lag monitor, and the claim of a partition.
pub mod Enrich
pub mod Lag
pub mod Retry
pub mod Claim
pub mod Forecast
pub mod Stats
