-- ===== src/Runtime.antt =====
-- runtime/parena_runtime.c and runtime/parena_runtime.h: what compiled programs link against.
pub mod Pool
pub mod Arena
pub mod Vec
pub mod Tagged
pub mod Buffers
