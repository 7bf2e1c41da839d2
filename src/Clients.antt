-- ===== src/Clients.antt =====
-- The clients of pkg/clients.
pub mod Streams
pub mod Provider
pub mod Contexts
pub mod Listener
pub mod Requests
pub mod KeyedBuffer
