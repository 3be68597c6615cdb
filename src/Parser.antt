-- ===== src/Parser.antt =====
-- compiler/parser/src/parser.rs: the parser.
pub mod State
pub mod Expressions
pub mod Statements
pub mod Programs
pub mod Ends
pub mod Grammar
pub mod Sound
pub mod Tests
