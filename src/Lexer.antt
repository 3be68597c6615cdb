-- ===== src/Lexer.antt =====
-- compiler/lexer/src/lexer.rs: the lexer, around the token rules.
pub mod Raw
pub mod Lex
pub mod Strings
pub mod Comments
mod Tests
