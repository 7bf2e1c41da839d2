-- ===== src/Scheduler/Broker.antt =====
-- The broker (pkg/scheduler/broker.go): each handler as a function of the broker's state, and what
-- holds of them.
pub mod Route
pub mod Respond
pub mod Stream
pub mod Steps
pub mod Tracked
pub mod Routed
pub mod Handled
pub mod Account
pub mod Tokens
pub mod Agents
pub mod Recovery
