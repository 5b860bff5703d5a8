-- ===== src/Tree.antt =====
-- tree: the layout of a rocks tree, conflicts between rocks over a file, deployment and removal.
pub mod Layout
pub mod Conflicts
pub mod Sources
pub mod Wrapper
pub mod Deploy
mod Tests
