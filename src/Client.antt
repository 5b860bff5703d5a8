-- ===== src/Client.antt =====
-- The package client: what an engine does with the manifest of the tree, and around Deploy.
pub mod Providers
pub mod Source
pub mod Engine
mod Tests
mod EngineTests
