-- ===== src/Application/Path.antt =====
-- compiler/ir/src/application.rs: the path of an expression is its label.
use Prim.Native.String
use kaspa_script.Prelude.{◌≡◌, refl, ap, String}
use kaspa_script.Syntax.Ast.{Expr}
use kaspa_script.Application.Normalize.{expression_path, expression_label}

-- `expression_path` gives the same text as `expression_label`, for every expression.
pub expression_path-label :
    (debug : String → String) (e : Expr) → expression_path debug e ≡ expression_label debug e
unfolding expression_path expression_label
expression_path-label debug (Expr.field object f _) =
    ap (λ s. String.◌++◌ s (String.◌++◌ "." f.name)) (expression_path-label debug object)
expression_path-label debug _ = refl
