-- ===== src/Consumerd.antt =====
-- The consumerd (pkg/consumerd).
pub mod Queue
pub mod Server
pub mod Telemetry
