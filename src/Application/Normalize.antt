-- ===== src/Application/Normalize.antt =====
-- compiler/ir/src/application.rs: normalized expressions, and the kinds of constraints.
use text.Mathlib.Text.{◌==◌ as str_eq}
use Prim.Native.String
use kaspa_script.Prelude.{String, Bool, false, List, [], ◌∷◌, ◌||◌, if◌then◌else◌}
use kaspa_script.Prelude.Text.{member}
use kaspa_script.Syntax.Ast
use kaspa_script.Syntax.Ast.{Expr, Exprs, UnaryOp, BinaryOp}
use kaspa_script.Application.Model.{
  UnaryOperator, BinaryOperator, NormalizedExpression, NormalizedExpressions, ConstraintKind, nil,
  cons,
}
use kaspa_script.Application.Display.{display}

unfoldable pub normalize_unary_operator : UnaryOp → UnaryOperator
normalize_unary_operator UnaryOp.negation = UnaryOperator.negation
normalize_unary_operator UnaryOp.negate = UnaryOperator.negate

unfoldable pub normalize_binary_operator : BinaryOp → BinaryOperator
normalize_binary_operator BinaryOp.or = BinaryOperator.or
normalize_binary_operator BinaryOp.and = BinaryOperator.and
normalize_binary_operator BinaryOp.equal = BinaryOperator.equal
normalize_binary_operator BinaryOp.not_equal = BinaryOperator.not_equal
normalize_binary_operator BinaryOp.greater = BinaryOperator.greater
normalize_binary_operator BinaryOp.greater_equal = BinaryOperator.greater_equal
normalize_binary_operator BinaryOp.less = BinaryOperator.less
normalize_binary_operator BinaryOp.less_equal = BinaryOperator.less_equal
normalize_binary_operator BinaryOp.add = BinaryOperator.add
normalize_binary_operator BinaryOp.sub = BinaryOperator.sub
normalize_binary_operator BinaryOp.mul = BinaryOperator.mul
normalize_binary_operator BinaryOp.div = BinaryOperator.div
normalize_binary_operator BinaryOp.modulo = BinaryOperator.modulo

-- `expression_path` writes the normalized form of any expression but a name and a field; that form is
-- written out in its clauses. The first argument writes a string as `{value:?}` does.
unfoldable mutual
  unfolding normalize_unary_operator normalize_binary_operator display

  pub normalize_expression : (String → String) → Expr → NormalizedExpression
  normalize_expression debug (Expr.ident i) = NormalizedExpression.symbol i.name
  normalize_expression debug (Expr.integer value _) = NormalizedExpression.integer value
  normalize_expression debug (Expr.string value _) = NormalizedExpression.string value
  normalize_expression debug (Expr.bool value _) = NormalizedExpression.bool value
  normalize_expression debug (Expr.array elements _) =
      NormalizedExpression.array (normalize_all debug elements)
  normalize_expression debug (Expr.unary op e _) =
      NormalizedExpression.unary (normalize_unary_operator op) (normalize_expression debug e)
  normalize_expression debug (Expr.binary left op right _) =
      NormalizedExpression.binary (normalize_binary_operator op) (normalize_expression debug left)
        (normalize_expression debug right)
  normalize_expression debug (Expr.call callee args _) =
      NormalizedExpression.call (expression_path debug callee) (normalize_all debug args)
  normalize_expression debug (Expr.field object f _) =
      NormalizedExpression.field (normalize_expression debug object) f.name

  pub normalize_all : (String → String) → Exprs → NormalizedExpressions
  normalize_all debug Ast.nil = nil
  normalize_all debug (Ast.cons e es) = cons (normalize_expression debug e) (normalize_all debug es)

  pub expression_path : (String → String) → Expr → String
  expression_path debug (Expr.ident i) = i.name
  expression_path debug (Expr.field object f _) =
      String.◌++◌ (expression_path debug object) (String.◌++◌ "." f.name)
  expression_path debug (Expr.integer value _) = display debug (NormalizedExpression.integer value)
  expression_path debug (Expr.string value _) = display debug (NormalizedExpression.string value)
  expression_path debug (Expr.bool value _) = display debug (NormalizedExpression.bool value)
  expression_path debug (Expr.array elements _) =
      display debug (NormalizedExpression.array (normalize_all debug elements))
  expression_path debug (Expr.unary op e _) =
      display debug
        (NormalizedExpression.unary (normalize_unary_operator op) (normalize_expression debug e))
  expression_path debug (Expr.binary left op right _) = display debug (
      NormalizedExpression.binary (normalize_binary_operator op) (normalize_expression debug left)
        (normalize_expression debug right))
  expression_path debug (Expr.call callee args _) =
      display debug
        (NormalizedExpression.call (expression_path debug callee) (normalize_all debug args))

unfoldable pub expression_label : (String → String) → Expr → String
unfolding normalize_expression display
expression_label debug e = display debug (normalize_expression debug e)

unfoldable mutual
  pub expression_contains : (String → Bool) → Expr → Bool
  expression_contains p (Expr.ident i) = p i.name
  expression_contains p (Expr.array elements _) = any_contains p elements
  expression_contains p (Expr.unary _ e _) = expression_contains p e
  expression_contains p (Expr.binary left _ right _) =
      expression_contains p left || expression_contains p right
  expression_contains p (Expr.call callee args _) =
      expression_contains p callee || any_contains p args
  expression_contains p (Expr.field object f _) = p f.name || expression_contains p object
  expression_contains p _ = false

  pub any_contains : (String → Bool) → Exprs → Bool
  any_contains p Ast.nil = false
  any_contains p (Ast.cons e es) = expression_contains p e || any_contains p es

unfoldable mutual
  pub expression_contains_field : Expr → String → Bool
  expression_contains_field (Expr.field object f _) expected =
      str_eq f.name expected || expression_contains_field object expected
  expression_contains_field (Expr.array elements _) expected = any_contains_field elements expected
  expression_contains_field (Expr.unary _ e _) expected = expression_contains_field e expected
  expression_contains_field (Expr.binary left _ right _) expected =
      expression_contains_field left expected || expression_contains_field right expected
  expression_contains_field (Expr.call callee args _) expected =
      expression_contains_field callee expected || any_contains_field args expected
  expression_contains_field _ expected = false

  pub any_contains_field : Exprs → String → Bool
  any_contains_field Ast.nil expected = false
  any_contains_field (Ast.cons e es) expected =
      expression_contains_field e expected || any_contains_field es expected

-- A test of a name against several.
abbrev pub one_of : List String → String → Bool
one_of names name = member name names

unfoldable pub classify_constraint : Expr → ConstraintKind
unfolding expression_contains expression_contains_field member
classify_constraint e =
    if expression_contains (one_of ("zk_verify" ∷ [])) e
    then ConstraintKind.proof
    else if expression_contains (one_of ("covenant_id" ∷ "covenant" ∷ [])) e
    then ConstraintKind.covenant
    else if expression_contains (one_of ("sequencing" ∷ [])) e
    then ConstraintKind.sequencing
    else if expression_contains (one_of ("verify" ∷ "multisig" ∷ [])) e
    then ConstraintKind.authorization
    else if expression_contains (one_of ("block" ∷ [])) e
    then ConstraintKind.timelock
    else if expression_contains (one_of ("sha256" ∷ "blake2b" ∷ "hash160" ∷ [])) e
    then ConstraintKind.hashlock
    else if expression_contains_field e "value"
    then ConstraintKind.value
    else if expression_contains_field e "script"
    then ConstraintKind.script
    else if expression_contains (one_of ("input_count" ∷ "output_count" ∷ "continuation" ∷ [])) e
    then ConstraintKind.transaction_shape
    else ConstraintKind.generic
