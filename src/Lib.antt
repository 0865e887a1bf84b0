-- ===== src/Lib.antt =====
-- PARENA: an S-expression language with regions, compiled to C and other targets. This library
-- models the front of its compiler, its emitters for Lua, Java and TypeScript and parts of the two
-- others, the formatter, and the memory of its runtime.
--
-- A source is read into a tree by the tokenizer and the parser. The region analyzer walks the tree
-- and rejects a program in which a pointer into a short-lived region escapes to a longer-lived
-- one. The sugar rewrites turn the forms of a body into forms of the core language before a
-- backend emits it. The formatter works on the text alone. Compiled programs link against the
-- runtime, whose arenas take blocks from a block provider, by default from a static pool in builds
-- without malloc; its vectors and byte buffers lie in arenas.
--
-- The parts:
-- - Prelude: shared names, Boolean tests, lists measured by the native numbers, C strings as lists
--   of bytes, and C's int as an index.
-- - Lexer: src/lexer.h and src/lexer.c. A `Lexer` is the bytes from `pos` on and the line.
--   `lexer_next` hands back the token, the error and the lexer behind it. Lexer/Chars, Cursor,
--   Scan, Strings and Next hold the functions of the source under their names; Position, Slices,
--   Words, Escapes and Progress hold the proofs.
-- - Ast: src/ast.h and src/ast.c. A node is its type, line, text and children; Ast/Children has
--   `node_push_child` on the array of child pointers, with the copy loop and the doubling; the
--   trees of the other parts hold their children as a list.
-- - Parser: src/parser.c. `fail` and its longjmp are the error of a result. Parser/State and Forms
--   model the code; Grammar says what tokens spell a tree.
-- - Region: src/region.c. A scope is the list of its frames, the innermost first; the pass returns
--   the first error, with the line and the regions that its message names.
-- - Fmt: src/fmt.c. `Out` is the output buffer, with a mark for a write outside it. Fmt/Layout
--   lays lines out without a buffer.
-- - Sugar: src/ast_sugar.h. `ast_sugar` passes the count of temporaries, and its error is `none`.
--   Sugar/Core tells the trees without sugar apart.
-- - Emit: what the emitters for Lua and Java have in common, which each of them writes out for
--   itself: a text or an error (`Out`), the tests on the head of a form, the inline source of a
--   `#target` map, and the loop over the forms of a program, with the proofs about them.
-- - Lua: src/emit_lua.c, the text buffer, the spelling of names, `emit_lua_expr`, the definitions
--   and `emit_lua`. The message of an error is a constructor of `LuaError`. Lua/Accepts and
--   Lua/Definitions say which trees the emitter takes.
-- - Java: src/emit_java.c, from the tables to `emit_java`, laid out like Lua. Its text buffer and
--   `camel_case` are those of src/emit_lua.c, word for word, and are modelled once.
-- - Ts: src/emit_ts.c. An expression's text comes with its type (`TsOut`); Ts/Types has the typing
--   rules, Ts/Shapes, Bridge, Typing and Sound the proof that the emitter follows them. A
--   statement takes the context and hands back its lines and the context behind it (`StmtOut`);
--   the destination of a value is `Dest`. The array of locals has all its slots and a count of
--   those in use, which a block sets back. `emit_ts` runs the sugar rewrites first.
-- - Llvm: of src/emit_llvm.c the test for an expression that may be evaluated for nothing and the
--   lowering of `if` that rests on it (Llvm/Speculation), and the case that `emit_llvm_expr` takes
--   by the head of a form (Llvm/Dispatch). Llvm/Run says how the code of an expression runs: the
--   instructions are a `Machine`, any functions of the right type, with an outcome that is a trap
--   or a value and a state; `if` runs by blocks or by `select`, as the lowering says. Forms other
--   than operators and `if` are any function of the runs of their parts.
-- - EmitC: of src/emit.c the spelling of declarations and pointer types, where the name of a
--   function pointer stands in its brackets. EmitC/Pointers says where a declarator of C stands.
-- - CompilerArena: src/arena.h and src/arena.c, with the bytes of the blocks. `malloc` and `free`
--   are parameters; the hypothesis on `malloc` is that it hands out as many bytes as asked for.
--   The end of a compiler that is out of memory is `none`.
-- - Runtime/Pool: the static pool of runtime/parena_runtime.c, `static_alloc` and `static_free`. A
--   pointer is the index of a block.
-- - Runtime/Arena: the arena of the same file, over a `Provider`, a record of operations and laws
--   that the static pool fills. A pointer is the address of a block and an offset; the bytes are
--   not kept.
-- - Runtime/Tagged, Runtime/Vec, Runtime/Buffers: `Result` and `Option`, `Vec`, and `Bytes` of
--   runtime/parena_runtime.h. The array or buffer is a list; what the arena's memory held before
--   is the parameter `unset`. A copy of a string that is longer than the buffer that was allocated
--   for it is an outcome of its own (`overrun`).
--
-- Bounds and fuel:
-- - The parser runs on twice the number of bytes and four units of fuel: a token takes a byte, and
--   a token costs at most two units. The tokenizer's loop over a string literal runs on the bytes
--   that are left and one. The doubling of a capacity runs on 64 rounds, which pass every size
--   below 2 ^ 63 from a capacity of 1.
-- - `size_t` is 64 bits: the sums and the doubling of sizes keep their wrap-around, but for the
--   slots of a vector, whose count is an `int` in the source; the counters of the static pool are
--   bounded by its size. Lines, depths, ranks and the counts of the analyzer are numbers without a
--   bound. The node array's capacity doubles modulo 2 ^ 64. The number of a temporary has at most
--   ten digits, as an `int` has. In Ts a function has at most 192 locals and a loop records 16
--   variables, as in the source; in EmitC a declaration is cut off behind 255 bytes and a group of
--   stars behind seven.
-- - Bytes are read as unsigned; the tokenizer's tests do not tell the sign apart.
--
-- Not modelled: the emitter for C (src/emit.c) but for its declarations; of the one for LLVM
-- (src/emit_llvm.c) the text of the module, the types of expressions and the limits of its tables;
-- the command line (src/main.c); the host glue, the tensors and the vendored cryptography of
-- runtime/; the standard library and the programs in the language itself.
pub mod Prelude
pub mod Lexer
pub mod Ast
pub mod Parser
pub mod Region
pub mod Fmt
pub mod Sugar
pub mod Emit
pub mod Lua
pub mod Java
pub mod Ts
pub mod Llvm
pub mod EmitC
pub mod CompilerArena
pub mod Runtime
