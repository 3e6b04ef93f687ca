-- ===== src/Propagation.antt =====
-- internal/propagation: how a broken transfer delays the network downstream.
pub mod Config
pub mod History
pub mod StopImpact
pub mod Engine
