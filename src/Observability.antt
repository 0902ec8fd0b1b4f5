-- ===== src/Observability.antt =====
-- internal/observability: the logger, and the options and points of the metric outputs.
pub mod Logging
pub mod Outputs
pub mod Custom
