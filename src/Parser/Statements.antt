-- ===== src/Parser/Statements.antt =====
-- compiler/parser/src/parser.rs: the parsing of statements and spends.
-- Each loop has fuel of its own, and passes it on to what it calls.
use kaspa_script.Prelude.{ℕ, zero, suc, List, [], ◌∷◌, if◌then◌else◌}
use kaspa_script.Prelude.Fault.{err}
use kaspa_script.Syntax.Token.{Span, TypeName, new_span}
use kaspa_script.Syntax.Kind.{TokenKind, Token}
use kaspa_script.Syntax.Ast.{Param, Expr, Stmt, let_stmt, require, return, Spend}
use kaspa_script.Parser.State.{
  Parser, out_of_fuel, Parse, ◌>>=◌, pure, error_at, error_here, advance_or_error, check_exact,
  match_exact, expect_exact, previous_span, is_at_end, parse_identifier,
}
use kaspa_script.Parser.Expressions.{separator, parse_expression}

-- The rest of a statement, after its first word, from what it builds.
unfoldable pub finish_statement : Parser → ℕ → (Expr → Span → Stmt) → Parse Stmt
unfolding previous_span parse_expression expect_exact
finish_statement p f build cursor =
    (do
      e ← parse_expression p f
      close ← expect_exact p TokenKind.semicolon "`;`"
      pure (build e (new_span (previous_span p cursor).start close.span.end)))
      cursor

unfoldable pub finish_let : Parser → ℕ → Parse Stmt
unfolding previous_span parse_identifier parse_expression expect_exact
finish_let p f cursor =
    (do
      name ← parse_identifier p
      _ ← expect_exact p TokenKind.equal "`=`"
      e ← parse_expression p f
      close ← expect_exact p TokenKind.semicolon "`;`"
      pure (let_stmt name e (new_span (previous_span p cursor).start close.span.end)))
      cursor

unfoldable pub parse_statement : Parser → ℕ → Parse Stmt
unfolding match_exact finish_let finish_statement error_here
parse_statement p f = do
  is_let ← match_exact p TokenKind.let_word
  if is_let then finish_let p f else (do
    is_require ← match_exact p TokenKind.require
    if is_require then finish_statement p f require else (do
      is_return ← match_exact p TokenKind.return_word
      if is_return then finish_statement p f return else error_here p "expected statement"))

unfoldable pub parse_body : Parser → ℕ → Parse (List Stmt)
unfolding check_exact is_at_end error_here parse_statement
parse_body p zero cursor = err out_of_fuel
parse_body p (suc f) cursor =
    (if check_exact p TokenKind.right_brace cursor
        then pure []
        else if is_at_end p cursor
        then error_here p "expected `}`"
        else (do s ← parse_statement p f; ss ← parse_body p f; pure (s ∷ ss)))
      cursor

-- The type that a token names.
unfoldable pub type_token : Parser → Token → TokenKind → Parse TypeName
unfolding error_at
type_token p token (TokenKind.type ty) = pure ty
type_token p token _ = error_at p token.span "expected type"

unfoldable pub parse_typed_param : Parser → Parse Param
unfolding parse_identifier expect_exact advance_or_error type_token
parse_typed_param p = do
  name ← parse_identifier p
  _ ← expect_exact p TokenKind.colon "`:`"
  token ← advance_or_error p "expected type"
  ty ← type_token p token token.kind
  pure record { name = name; ty = ty; span = new_span name.span.start token.span.end }

unfoldable pub parse_typed_params : Parser → ℕ → TokenKind → Parse (List Param)
unfolding check_exact parse_typed_param separator
parse_typed_params p zero terminator cursor = err out_of_fuel
parse_typed_params p (suc f) terminator cursor =
    (if check_exact p terminator cursor then pure [] else (do
      param ← parse_typed_param p
      _ ← separator p terminator "expected `,` or terminator"
      params ← parse_typed_params p f terminator
      pure (param ∷ params)))
      cursor

unfoldable pub parse_spend : Parser → ℕ → Parse Spend
unfolding parse_identifier expect_exact parse_typed_params parse_body
parse_spend p f = do
  name ← parse_identifier p
  _ ← expect_exact p TokenKind.left_paren "`(`"
  params ← parse_typed_params p f TokenKind.right_paren
  _ ← expect_exact p TokenKind.right_paren "`)`"
  _ ← expect_exact p TokenKind.left_brace "`{`"
  body ← parse_body p f
  close ← expect_exact p TokenKind.right_brace "`}`"
  pure record {
    name = name;
    params = params;
    body = body;
    span = new_span name.span.start close.span.end;
  }
