-- ===== src/Llvm.antt =====
-- src/emit_llvm.c: the part of the emitter for WebAssembly that decides which code an `if` becomes.
pub mod Speculation
pub mod Dispatch
pub mod Run
pub mod Pure
pub mod Same
pub mod Tests
