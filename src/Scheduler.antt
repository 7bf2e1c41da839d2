-- ===== src/Scheduler.antt =====
-- pkg/scheduler: the router of compile requests and the broker between consumerds and agents.
pub mod Router
pub mod Messages
pub mod Broker
pub mod Server
