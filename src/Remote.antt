-- ===== src/Remote.antt =====
-- remote: the manifests of rock servers, and the search over them.
pub mod Manifest
pub mod Index
pub mod Search
pub mod Server
pub mod Loading
mod Tests
