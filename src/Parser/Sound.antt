-- ===== src/Parser/Sound.antt =====
-- compiler/parser/src/parser.rs: what the parser reads as an expression is in the grammar.
pub mod Reading
pub mod Expressions
