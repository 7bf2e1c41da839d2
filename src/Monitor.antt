-- ===== src/Monitor.antt =====
-- The monitor (pkg/monitor).
pub mod Store
pub mod Server
