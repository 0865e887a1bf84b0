-- ===== src/Parser.antt =====
-- src/parser.c and src/parser.h: the recursive-descent reader. Its operations stand in State and
-- Forms, its proofs in the other children.
pub mod State
pub mod Forms
pub mod Tests
pub mod Grammar
pub mod Ensures
pub mod Sound
pub mod Steps
pub mod Complete
pub mod Decides
