-- ===== src/Cc/Args.antt =====
-- The argument parser (pkg/cc/args.go): its tables, parsing, and the changes of the arguments.
pub mod Tables
pub mod Parse
pub mod Edit
pub mod Mode
pub mod Strip
pub mod Indexes
pub mod Found
pub mod Action
pub mod Local
