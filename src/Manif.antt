-- ===== src/Manif.antt =====
-- manif: the serializer and the parser of manifest files.
pub mod Value
pub mod Writer
pub mod Lexer
pub mod Parser
pub mod Quoted
pub mod Integers
pub mod Store
pub mod Tables
mod Tests
mod StoreTests
