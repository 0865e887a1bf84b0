-- ===== src/Lua.antt =====
-- src/emit_lua.c: the emitter for Lua.
pub mod Buffer
pub mod Names
pub mod Reserved
pub mod Text
pub mod Expr
pub mod Accepts
pub mod Shapes
pub mod Decides
pub mod Module
pub mod Definitions
pub mod Whole
pub mod Tests
