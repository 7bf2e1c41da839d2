-- ===== src/Storage.antt =====
-- pkg/storage: the expiration heap, the storage providers, and the chain of providers.
pub mod Chain
pub mod Heap
pub mod Volatile
pub mod Notifier
pub mod Local
pub mod S3
