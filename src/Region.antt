-- ===== src/Region.antt =====
-- src/region.c and src/region.h: the region analyzer. Its scopes stand in Scope, its walk in Walk,
-- its proofs in the other children.
pub mod Scope
pub mod Walk
pub mod Tests
pub mod Ranks
pub mod Errors
pub mod Calls
pub mod Only
