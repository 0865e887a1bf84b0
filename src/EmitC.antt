-- ===== src/EmitC.antt =====
-- src/emit.c: of the emitter for C the spelling of declarations.
pub mod Declarators
pub mod Groups
pub mod Pointers
pub mod Tests
