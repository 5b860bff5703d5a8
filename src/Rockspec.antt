-- ===== src/Rockspec.antt =====
-- rockspec: platform overrides and validation of a rockspec that was evaluated.
pub mod Platforms
pub mod Validate
mod Tests
