-- ===== src/Build.antt =====
-- The package build: the flags, variables and environment that its backends run the build tools with.
pub mod Flags
pub mod Vars
pub mod Environment
mod Tests
