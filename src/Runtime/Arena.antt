-- ===== src/Runtime/Arena.antt =====
-- runtime/parena_runtime.c: the bump arena over a block provider. A pointer is a block's address and
-- an offset into its data; the bytes themselves are not kept.
pub mod Provider
pub mod Alloc
pub mod Bounds
pub mod Teardown
pub mod Tests
