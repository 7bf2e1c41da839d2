-- ===== src/Toolchains.antt =====
-- The toolchains of a host (pkg/toolchains).
pub mod Store
pub mod Find
pub mod Update
pub mod Query
