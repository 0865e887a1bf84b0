-- ===== src/Emit.antt =====
-- What src/emit_lua.c and src/emit_java.c have in common: each writes it out for itself.
pub mod Out
pub mod Shapes
pub mod Forms
pub mod Source
pub mod Top
pub mod Tests
