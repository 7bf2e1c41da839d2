-- ===== src/Types.antt =====
-- pkg/types: keys of the monitor's store and toolchains.
pub mod Key
pub mod Toolchain
pub mod ShortId
