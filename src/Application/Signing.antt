-- ===== src/Application/Signing.antt =====
-- compiler/ir/src/application.rs: the signatures that a spend asks for.
use text.Mathlib.Text.{◌==◌ as str_eq}
use kaspa_script.Prelude.{
  ℕ, ◌-◌, ◌^◌, String, List, [], ◌∷◌, ◌++◌, Option, none, some, ltb, if◌then◌else◌,
}
use kaspa_script.Syntax.Ast
use kaspa_script.Syntax.Ast.{Expr, Exprs, Stmt, require, first, second}
use kaspa_script.Application.Model.{SigningScheme, SigningRequirement}
use kaspa_script.Application.Normalize.{expression_label}

unfoldable pub labels : (String → String) → Exprs → List String
unfolding expression_label
labels debug Ast.nil = []
labels debug (Ast.cons e es) = expression_label debug e ∷ labels debug es

unfoldable pub array_labels : (String → String) → Expr → List String
unfolding labels expression_label
array_labels debug (Expr.array elements _) = labels debug elements
array_labels debug other = expression_label debug other ∷ []

-- `map(array_labels).unwrap_or_default()`
unfoldable pub labels_or_none : (String → String) → Option Expr → List String
unfolding array_labels
labels_or_none debug none = []
labels_or_none debug (some e) = array_labels debug e

-- `map(expression_label).into_iter().collect()`
unfoldable pub label_or_none : (String → String) → Option Expr → List String
unfolding expression_label
label_or_none debug none = []
label_or_none debug (some e) = expression_label debug e ∷ []

unfoldable pub threshold_of : Option Expr → ℕ
threshold_of (some (Expr.integer value _)) = if ltb value (2 ^ 32) then value else 2 ^ 32 - 1
threshold_of _ = 0

unfoldable pub third : Exprs → Option Expr
unfolding second
third Ast.nil = none
third (Ast.cons _ es) = second es

-- What a call of its own asks for.
unfoldable pub call_requirement : (String → String) → Expr → Exprs → List SigningRequirement
unfolding label_or_none labels_or_none expression_label threshold_of first second third
call_requirement debug (Expr.field object f _) args =
    if str_eq f.name "verify"
    then record {
      scheme = SigningScheme.single_signature;
      threshold = 1;
      authorized_keys = label_or_none debug (first args);
      signature_arguments = expression_label debug object ∷ [];
    }
      ∷ []
    else []
call_requirement debug (Expr.ident i) args =
    if str_eq i.name "multisig"
    then record {
      scheme = SigningScheme.multisig;
      threshold = threshold_of (first args);
      authorized_keys = labels_or_none debug (second args);
      signature_arguments = labels_or_none debug (third args);
    }
      ∷ []
    else []
call_requirement debug _ args = []

unfoldable mutual
  unfolding call_requirement

  -- The requirements of an expression, in the order in which they are pushed.
  pub collect_signing_requirements : (String → String) → Expr → List SigningRequirement
  collect_signing_requirements debug (Expr.call callee args _) =
      call_requirement debug callee args
      ++ collect_signing_requirements debug callee
      ++ collect_all_requirements debug args
  collect_signing_requirements debug (Expr.array elements _) =
      collect_all_requirements debug elements
  collect_signing_requirements debug (Expr.unary _ e _) = collect_signing_requirements debug e
  collect_signing_requirements debug (Expr.binary left _ right _) =
      collect_signing_requirements debug left ++ collect_signing_requirements debug right
  collect_signing_requirements debug (Expr.field object _ _) =
      collect_signing_requirements debug object
  collect_signing_requirements debug _ = []

  pub collect_all_requirements : (String → String) → Exprs → List SigningRequirement
  collect_all_requirements debug Ast.nil = []
  collect_all_requirements debug (Ast.cons e es) =
      collect_signing_requirements debug e ++ collect_all_requirements debug es

unfoldable pub signing_requirements : (String → String) → List Stmt → List SigningRequirement
unfolding collect_signing_requirements
signing_requirements debug [] = []
signing_requirements debug (require e _ ∷ ss) =
    collect_signing_requirements debug e ++ signing_requirements debug ss
signing_requirements debug (_ ∷ ss) = signing_requirements debug ss
