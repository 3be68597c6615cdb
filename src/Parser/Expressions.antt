-- ===== src/Parser/Expressions.antt =====
-- compiler/parser/src/parser.rs: the parsing of expressions, by precedence climbing. The functions call
-- each other on fuel; the loops over `self` are functions of their own.
use kaspa_script.Prelude.{
  ℕ, zero, suc, ◌+◌, String, true, false, Option, none, some, ltb, not, ◌&&◌, if◌then◌else◌,
}
use kaspa_script.Prelude.Fault.{err}
use kaspa_script.Syntax.Token.{new_span}
use kaspa_script.Syntax.Kind.{TokenKind, Token}
use kaspa_script.Syntax.Ast.{Ident, Expr, Exprs, UnaryOp, BinaryOp, expr_span, nil, cons}
use kaspa_script.Parser.State.{
  Parser, out_of_fuel, Parse, ◌>>=◌, pure, is_value_keyword, token_text, error_at, error_here,
  advance_or_error, check_exact, match_exact, expect_exact, previous_span, parse_u64,
  current_binary_op, parse_identifier,
}

unfoldable pub call_of : Expr → Exprs → ℕ → Expr
unfolding expr_span
call_of e args end = Expr.call e args (new_span (expr_span e).start end)

unfoldable pub field_of : Expr → Ident → Expr
unfolding expr_span
field_of e name = Expr.field e name (new_span (expr_span e).start name.span.end)

unfoldable pub unary_of : UnaryOp → ℕ → Expr → Expr
unfolding expr_span
unary_of op start e = Expr.unary op e (new_span start (expr_span e).end)

unfoldable pub binary_of : Expr → BinaryOp → Expr → Expr
unfolding expr_span
binary_of left op right =
    Expr.binary left op right (new_span (expr_span left).start (expr_span right).end)

-- The operator at the cursor, if its precedence is not below the smallest one that is let through.
unfoldable pub at_least : ℕ → Option (BinaryOp × ℕ) → Option (BinaryOp × ℕ)
at_least min none = none
at_least min (some (op, precedence)) = if ltb precedence min then none else some (op, precedence)

-- What the loop of `parse_precedence` does: it ends, or moves on and takes the operator.
unfoldable pub on_operator :
    {A : Type 0} → Option (BinaryOp × ℕ) → Parse A → (BinaryOp → ℕ → Parse A) → Parse A
on_operator none stop go cursor = stop cursor
on_operator (some (op, precedence)) stop go cursor = go op precedence (cursor + 1)

-- After an element: a comma, or the closing token, which is left there.
unfoldable pub separator : Parser → TokenKind → String → Parse (Unit {0})
unfolding match_exact check_exact error_here
separator p closing message = do
  comma ← match_exact p TokenKind.comma
  (λ cursor.
      (if not comma && not (check_exact p closing cursor) then error_here p message else pure tt)
        cursor)

unfoldable pub integer_of : Parser → Token → String → Parse Expr
unfolding parse_u64
integer_of p token value = do n ← parse_u64 p value token.span; pure (Expr.integer n token.span)

unfoldable pub in_parens : Parser → Parse Expr → Parse Expr
unfolding expect_exact
in_parens p expression = do e ← expression; _ ← expect_exact p TokenKind.right_paren "`)`"; pure e

unfoldable pub keyword_ident : Parser → Token → TokenKind → Parse Expr
unfolding is_value_keyword token_text error_at
keyword_ident p token kind =
    if is_value_keyword kind
    then pure (Expr.ident record { name = token_text kind; span = token.span })
    else error_at p token.span "expected expression"

-- The `match` of `parse_primary`, given the parsers of the expression and of the array.
unfoldable pub primary_of : Parser → Token → TokenKind → Parse Expr → (ℕ → Parse Expr) → Parse Expr
primary_of p token (TokenKind.identifier name) expression array =
    pure (Expr.ident record { name = name; span = token.span })
primary_of p token (TokenKind.integer value) expression array = integer_of p token value
primary_of p token (TokenKind.string value) expression array = pure (Expr.string value token.span)
primary_of p token TokenKind.true_word expression array = pure (Expr.bool true token.span)
primary_of p token TokenKind.false_word expression array = pure (Expr.bool false token.span)
primary_of p token TokenKind.left_paren expression array = in_parens p expression
primary_of p token TokenKind.left_bracket expression array = array token.span.start
primary_of p token kind expression array = keyword_ident p token kind

unfoldable mutual
  unfolding call_of field_of unary_of binary_of at_least on_operator separator primary_of
      match_exact check_exact expect_exact previous_span advance_or_error current_binary_op
      parse_identifier

  pub parse_precedence : Parser → ℕ → ℕ → Parse Expr
  parse_precedence p zero min cursor = err out_of_fuel
  parse_precedence p (suc f) min cursor = (do left ← parse_unary p f; climb p f min left) cursor

  -- The loop of `parse_precedence`.
  pub climb : Parser → ℕ → ℕ → Expr → Parse Expr
  climb p zero min left cursor = err out_of_fuel
  climb p (suc f) min left cursor =
      on_operator (at_least min (current_binary_op p cursor)) (pure left)
        (λ op precedence. do
          right ← parse_precedence p f (precedence + 1)
          climb p f min (binary_of left op right))
        cursor

  pub parse_unary : Parser → ℕ → Parse Expr
  parse_unary p zero cursor = err out_of_fuel
  parse_unary p (suc f) cursor =
      (do
        bang ← match_exact p TokenKind.bang
        if bang then parse_operand p f UnaryOp.negation else (do
          minus ← match_exact p TokenKind.minus
          if minus then parse_operand p f UnaryOp.negate else parse_postfix p f))
        cursor

  -- What stands after a unary operator.
  pub parse_operand : Parser → ℕ → UnaryOp → Parse Expr
  parse_operand p zero op cursor = err out_of_fuel
  parse_operand p (suc f) op cursor =
      (do e ← parse_unary p f; pure (unary_of op (previous_span p cursor).start e)) cursor

  pub parse_postfix : Parser → ℕ → Parse Expr
  parse_postfix p zero cursor = err out_of_fuel
  parse_postfix p (suc f) cursor = (do e ← parse_primary p f; postfix_loop p f e) cursor

  -- The loop of `parse_postfix`.
  pub postfix_loop : Parser → ℕ → Expr → Parse Expr
  postfix_loop p zero e cursor = err out_of_fuel
  postfix_loop p (suc f) e cursor =
      (do
        paren ← match_exact p TokenKind.left_paren
        if paren
            then (do
              args ← parse_arguments p f
              close ← expect_exact p TokenKind.right_paren "`)`"
              postfix_loop p f (call_of e args close.span.end))
            else (do
              dot ← match_exact p TokenKind.dot
              if dot
                  then (do name ← parse_identifier p; postfix_loop p f (field_of e name))
                  else pure e))
        cursor

  pub parse_arguments : Parser → ℕ → Parse Exprs
  parse_arguments p zero cursor = err out_of_fuel
  parse_arguments p (suc f) cursor =
      parse_elements p f TokenKind.right_paren "expected `,` or `)`" cursor

  -- The loop of `parse_arguments`, and that of `parse_array`, which has another closing token.
  pub parse_elements : Parser → ℕ → TokenKind → String → Parse Exprs
  parse_elements p zero closing message cursor = err out_of_fuel
  parse_elements p (suc f) closing message cursor =
      (if check_exact p closing cursor then pure nil else (do
        e ← parse_precedence p f 0
        _ ← separator p closing message
        es ← parse_elements p f closing message
        pure (cons e es)))
        cursor

  pub parse_primary : Parser → ℕ → Parse Expr
  parse_primary p zero cursor = err out_of_fuel
  parse_primary p (suc f) cursor =
      (do
        token ← advance_or_error p "expected expression"
        primary_of p token token.kind (parse_precedence p f 0) (parse_array p f))
        cursor

  pub parse_array : Parser → ℕ → ℕ → Parse Expr
  parse_array p zero start cursor = err out_of_fuel
  parse_array p (suc f) start cursor =
      (do
        elements ← parse_elements p f TokenKind.right_bracket "expected `,` or `]`"
        close ← expect_exact p TokenKind.right_bracket "`]`"
        pure (Expr.array elements (new_span start close.span.end)))
        cursor

unfoldable pub parse_expression : Parser → ℕ → Parse Expr
unfolding parse_precedence
parse_expression p f = parse_precedence p f 0
