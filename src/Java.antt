-- ===== src/Java.antt =====
-- src/emit_java.c: the emitter for Java.
pub mod Text
pub mod Expr
pub mod Accepts
pub mod Decides
pub mod Module
pub mod Definitions
pub mod Whole
pub mod Tests
