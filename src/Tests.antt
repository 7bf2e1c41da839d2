-- ===== src/Tests.antt =====
-- Examples: the theorems at concrete inputs.
mod Scheduler
mod Storage
mod Cc
mod Components
mod Consumerd
mod Monitor
mod Stream
mod Local
mod Agent
mod Clients
