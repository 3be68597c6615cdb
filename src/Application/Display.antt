-- ===== src/Application/Display.antt =====
-- compiler/model/src/lib.rs: the text of a normalized expression. `{value:?}`, the text that the
-- standard library writes for a string, is a parameter.
use Prim.Native.String
use kaspa_script.Prelude.{String, Bool, true, false}
use kaspa_script.Prelude.Text.{decimal}
use kaspa_script.Application.Model.{
  UnaryOperator, BinaryOperator, NormalizedExpression, NormalizedExpressions, OutputField, nil,
  cons,
}

unfoldable pub unary_text : UnaryOperator → String
unary_text UnaryOperator.negation = "!"
unary_text UnaryOperator.negate = "-"

unfoldable pub binary_text : BinaryOperator → String
binary_text BinaryOperator.or = "||"
binary_text BinaryOperator.and = "&&"
binary_text BinaryOperator.equal = "=="
binary_text BinaryOperator.not_equal = "!="
binary_text BinaryOperator.greater = ">"
binary_text BinaryOperator.greater_equal = ">="
binary_text BinaryOperator.less = "<"
binary_text BinaryOperator.less_equal = "<="
binary_text BinaryOperator.add = "+"
binary_text BinaryOperator.sub = "-"
binary_text BinaryOperator.mul = "*"
binary_text BinaryOperator.div = "/"
binary_text BinaryOperator.modulo = "%"

unfoldable pub field_text : OutputField → String
field_text OutputField.value = "value"
field_text OutputField.script = "script"
field_text OutputField.covenant_id = "covenant_id"

unfoldable pub bool_text : Bool → String
bool_text true = "true"
bool_text false = "false"

unfoldable mutual
  unfolding unary_text binary_text bool_text

  -- `Display` of `NormalizedExpression`
  pub display : (String → String) → NormalizedExpression → String
  display debug (NormalizedExpression.symbol name) = name
  display debug (NormalizedExpression.integer value) = decimal value
  display debug (NormalizedExpression.string value) = debug value
  display debug (NormalizedExpression.bool value) = bool_text value
  display debug (NormalizedExpression.array elements) =
      String.◌++◌ "[" (String.◌++◌ (display_all debug elements) "]")
  display debug (NormalizedExpression.unary op operand) =
      String.◌++◌ (unary_text op) (display debug operand)
  display debug (NormalizedExpression.binary op left right) =
      String.◌++◌ (display debug left)
        (String.◌++◌ " " (String.◌++◌ (binary_text op) (String.◌++◌ " " (display debug right))))
  display debug (NormalizedExpression.call function arguments) =
      String.◌++◌ function (String.◌++◌ "(" (String.◌++◌ (display_all debug arguments) ")"))
  display debug (NormalizedExpression.field object name) =
      String.◌++◌ (display debug object) (String.◌++◌ "." name)

  -- Elements, with `, ` between two.
  pub display_all : (String → String) → NormalizedExpressions → String
  display_all debug nil = ""
  display_all debug (cons e nil) = display debug e
  display_all debug (cons e (cons e' es)) =
      String.◌++◌ (display debug e) (String.◌++◌ ", " (display_all debug (cons e' es)))
