-- ===== src/Lexer.antt =====
-- src/lexer.c and src/lexer.h: the tokenizer. Its operations stand in Chars, Cursor, Scan, Strings
-- and Next, its proofs in the other children.
pub mod Chars
pub mod Cursor
pub mod Scan
pub mod Strings
pub mod Next
pub mod Tests
pub mod Position
pub mod Slices
pub mod Words
pub mod Escapes
pub mod Progress
