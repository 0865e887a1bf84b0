-- ===== src/CompilerArena.antt =====
-- src/arena.h and src/arena.c: the arena of the compiler, with the bytes of its blocks. `malloc` is a
-- parameter: a heap, and what it hands out from it, if anything.
pub mod Contents
pub mod Alloc
pub mod Texts
pub mod Copies
pub mod Tests
