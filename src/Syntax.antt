-- ===== src/Syntax.antt =====
-- The data that the lexer and the parser hand on.
pub mod Token
pub mod Kind
pub mod Ast
