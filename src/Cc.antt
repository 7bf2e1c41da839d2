-- ===== src/Cc.antt =====
-- The compiler arguments (pkg/cc).
pub mod Filename
pub mod Args
pub mod Controller
pub mod Finder
pub mod Tasks
