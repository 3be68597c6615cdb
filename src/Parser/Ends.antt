-- ===== src/Parser/Ends.antt =====
-- compiler/parser/src/parser.rs: the parser ends, and the numbers that it keeps fit in 64 bits.
pub mod Reading
pub mod Expressions
pub mod Statements
pub mod Programs
