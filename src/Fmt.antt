-- ===== src/Fmt.antt =====
-- src/fmt.c: `parena fmt`, which re-indents each line to its bracket depth.
pub mod Lines
pub mod Source
pub mod Stable
pub mod Depth
pub mod Layout
pub mod Split
pub mod Buffer
pub mod Whole
pub mod Tests
