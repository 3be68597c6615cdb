-- ===== src/Semantic/Failure.antt =====
-- compiler/parser/src/parser.rs, compiler/semantic/src/checker.rs: the errors of the front end.
use kaspa_script.Prelude.{ℕ, String, List}
use kaspa_script.Syntax.Token.{Span}

pub record ParseError : Type 0 where
  pub file : String
  pub line : ℕ
  pub column : ℕ
  pub span : Span
  pub message : String

pub record SemanticError : Type 0 where
  pub file : String
  pub line : ℕ
  pub column : ℕ
  pub span : Span
  pub message : String

pub data AnalyzeError : Type 0 where
  parse : ParseError → AnalyzeError
  semantic : ℕ → AnalyzeError

pub record AnalyzeFailure : Type 0 where
  pub error : AnalyzeError
  pub errors : List SemanticError
