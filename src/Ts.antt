-- ===== src/Ts.antt =====
-- src/emit_ts.c: the emitter for TypeScript.
pub mod Names
pub mod Literal
pub mod Context
pub mod Text
pub mod Js
pub mod Expr
pub mod Types
pub mod Shapes
pub mod Bridge
pub mod Typing
pub mod Sound
pub mod Dest
pub mod Stmt
pub mod Same
pub mod Leaves
pub mod Restores
pub mod Module
pub mod Tests
