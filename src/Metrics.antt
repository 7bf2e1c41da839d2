-- ===== src/Metrics.antt =====
-- The health of a component (pkg/metrics).
pub mod Health
