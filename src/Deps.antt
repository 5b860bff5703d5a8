-- ===== src/Deps.antt =====
-- deps: version parsing and ordering, constraints, and the dependency resolver.
pub mod Float
pub mod Version
pub mod Constraint
pub mod Resolver
pub mod Scaled
mod Tests
mod ResolverTests
mod ConstraintTests
