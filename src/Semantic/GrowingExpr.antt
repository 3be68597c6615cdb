-- ===== src/Semantic/GrowingExpr.antt =====
-- The inference of an expression only adds errors.
use text.Mathlib.Text.{◌==◌ as str_eq}
use kaspa_script.Prelude.{
  String, Bool, true, false, List, [], ◌∷◌, Option, All, ◌==◌, ◌&&◌, ◌||◌, if◌then◌else◌,
}
use kaspa_script.Prelude.Text.{member}
use kaspa_script.Syntax.Token.{Span, TypeName}
use kaspa_script.Syntax.Ast.{
  Ident, Expr, Exprs, UnaryOp, expr_span, count, first, second, nil, cons,
}
use kaspa_script.Semantic.Checker.{Scope, Check, ◌>>=◌, ◌>>◌, skip, error, demand}
use kaspa_script.Semantic.Infer.{Infer, has_type, first_span, infer_first, infer_every}
use kaspa_script.Semantic.Calls.{
  check_multisig_literal, check_multisig, check_argument, infer_verify, infer_hash,
  infer_plain_call, infer_builtin, infer_call, infer_other_field, infer_field, is_logical,
  check_operands, check_operand, infer_expr, infer_exprs, infer_object,
}
use kaspa_script.Semantic.Growing.{
  IsGrowing, IsGrowing-if, IsGrowing-skip, IsGrowing-error, IsGrowing-demand, GrowingInfer,
  infer_identifier-IsGrowing, infer_first-IsGrowing, infer_every-IsGrowing,
  check_index_call-IsGrowing, check_continuation-IsGrowing, check_multisig_literal-IsGrowing,
  field_of-IsGrowing,
}

check_multisig-IsGrowing :
    (args : Exprs) (is : List Infer) (span : Span) (scope : Scope)
    → All GrowingInfer is
    → IsGrowing (check_multisig args is span scope)
unfolding check_multisig
check_multisig-IsGrowing args is span scope g =
    IsGrowing-if (count args == 3)
      (check_multisig_literal (first args) (second args) >> infer_every is scope)
      (error span "`multisig` requires k, keys, and signatures")
      (λ c h. check_multisig_literal-IsGrowing (first args) (second args) c (
        infer_every-IsGrowing is g scope (check_multisig_literal (first args) (second args) c).1 h))
      (IsGrowing-error span _)

check_argument-IsGrowing :
    (ty : TypeName) (args : Exprs) (is : List Infer) (span : Span) (missing wrong : String)
    (scope : Scope)
    → All GrowingInfer is
    → IsGrowing (check_argument ty args is span missing wrong scope)
unfolding check_argument
check_argument-IsGrowing ty args is span missing wrong scope g =
    IsGrowing-if (count args == 1)
      (infer_first is scope >>= λ found. demand (has_type ty found) (first_span args span) wrong)
      (error span missing)
      (λ c h. infer_first-IsGrowing is g scope c (
        IsGrowing-demand (has_type ty (infer_first is scope c).0) (first_span args span) wrong
          (infer_first is scope c).1 h))
      (IsGrowing-error span missing)

infer_verify-IsGrowing :
    (o : Expr) (io : Infer) (f : Ident) (args : Exprs) (is : List Infer)
    → GrowingInfer io
    → All GrowingInfer is
    → GrowingInfer (infer_verify o io f args is)
unfolding infer_verify
infer_verify-IsGrowing o io f args is p g scope c h = p scope c (
    IsGrowing-demand (has_type TypeName.signature (io scope c).0) (expr_span o)
      "`verify` receiver must be Signature" (io scope c).1
      (check_argument-IsGrowing TypeName.public_key args is f.span
        "`verify` requires one PublicKey argument" "`verify` argument must be PublicKey" scope g _
        h))

infer_hash-IsGrowing :
    (args : Exprs) (is : List Infer) (span : Span)
    → All GrowingInfer is
    → GrowingInfer (infer_hash args is span)
unfolding infer_hash
infer_hash-IsGrowing args is span g scope =
    IsGrowing-if (count args == 1) (infer_first is scope >>= λ _. skip)
      (error span "hash functions require one argument") (infer_first-IsGrowing is g scope)
      (IsGrowing-error span _)

infer_plain_call-IsGrowing :
    (i : Infer) (is : List Infer)
    → GrowingInfer i
    → All GrowingInfer is
    → GrowingInfer (infer_plain_call i is)
unfolding infer_plain_call
infer_plain_call-IsGrowing i is p g scope c h =
    p scope c (infer_every-IsGrowing is g scope (i scope c).1 h)

-- One branch of the chain of names.
branch :
    (b : Bool) (m k : Check (Option TypeName))
    → IsGrowing m
    → IsGrowing k
    → IsGrowing (if b then m else k)
branch true m k p q = p
branch false m k p q = q

infer_builtin-IsGrowing :
    (i : Ident) (ic : Infer) (args : Exprs) (is : List Infer)
    → GrowingInfer ic
    → All GrowingInfer is
    → GrowingInfer (infer_builtin i ic args is)
unfolding infer_builtin
infer_builtin-IsGrowing i ic args is p g scope =
    branch (str_eq i.name "input") _ _ (check_index_call-IsGrowing args i.span TypeName.input) (
      branch (str_eq i.name "output") _ _ (check_index_call-IsGrowing args i.span TypeName.output) (
        branch (str_eq i.name "continuation") _ _ (check_continuation-IsGrowing args i.span) (
          branch (str_eq i.name "zk_verify") _ _
            (check_argument-IsGrowing TypeName.zk_proof args is i.span
              "`zk_verify` requires one proof argument" "`zk_verify` argument must be ZKProof" scope
              g)
            (branch (str_eq i.name "multisig") _ _ (check_multisig-IsGrowing args is i.span scope g)
              (branch (member i.name ("sha256" ∷ "blake2b" ∷ "hash160" ∷ [])) _ _
                (infer_hash-IsGrowing args is i.span g scope)
                (infer_plain_call-IsGrowing ic is p g scope))))))

infer_call-IsGrowing :
    (callee : Expr) (ic io : Infer) (args : Exprs) (is : List Infer)
    → GrowingInfer ic
    → GrowingInfer io
    → All GrowingInfer is
    → GrowingInfer (infer_call callee ic io args is)
unfolding infer_call
infer_call-IsGrowing (Expr.field o f _) ic io args is p q g scope =
    branch (str_eq f.name "verify") _ _ (infer_verify-IsGrowing o io f args is q g scope)
      (infer_plain_call-IsGrowing ic is p g scope)
infer_call-IsGrowing (Expr.ident i) ic io args is p q g scope =
    infer_builtin-IsGrowing i ic args is p g scope
infer_call-IsGrowing _ ic io args is p q g scope = infer_plain_call-IsGrowing ic is p g scope

infer_other_field-IsGrowing :
    (io : Infer) (f : Ident) → GrowingInfer io → GrowingInfer (infer_other_field io f)
unfolding infer_other_field
infer_other_field-IsGrowing io f p scope c h =
    p scope c (field_of-IsGrowing f (io scope c).0 (io scope c).1 h)

infer_field-IsGrowing :
    (o : Expr) (io : Infer) (f : Ident) → GrowingInfer io → GrowingInfer (infer_field o io f)
unfolding infer_field error
infer_field-IsGrowing (Expr.ident root) io f p scope =
    branch (str_eq root.name "block") _ _
      (branch (str_eq f.name "height" || str_eq f.name "time") _ _ (λ _ h. h)
        (IsGrowing-error f.span _))
      (branch (str_eq root.name "covenant_id" && str_eq f.name "depth") _ _ (λ _ h. h)
        (branch (str_eq root.name "sequencing") _ _ (λ _ h. h)
          (infer_other_field-IsGrowing io f p scope)))
infer_field-IsGrowing _ io f p scope = infer_other_field-IsGrowing io f p scope

check_operand-IsGrowing :
    (op : UnaryOp) (ty : Option TypeName) (span : Span) → IsGrowing (check_operand op ty span)
unfolding check_operand
check_operand-IsGrowing UnaryOp.negation ty span =
    IsGrowing-demand (has_type TypeName.bool ty) span _
check_operand-IsGrowing UnaryOp.negate ty span = IsGrowing-skip

check_operands-IsGrowing :
    (b : Bool) (l r : Option TypeName) (span : Span) → IsGrowing (check_operands b l r span)
unfolding check_operands
check_operands-IsGrowing false l r span = IsGrowing-skip
check_operands-IsGrowing true l r span = IsGrowing-demand _ span _

mutual
  unfolding infer_expr

  expr-IsGrowing : (e : Expr) → GrowingInfer (infer_expr e)
  expr-IsGrowing (Expr.ident i) scope = infer_identifier-IsGrowing i scope
  expr-IsGrowing (Expr.integer _ _) scope = λ _ h. h
  expr-IsGrowing (Expr.string _ _) scope = λ _ h. h
  expr-IsGrowing (Expr.bool _ _) scope = λ _ h. h
  expr-IsGrowing (Expr.array es _) scope =
      infer_every-IsGrowing (infer_exprs es) (exprs-IsGrowing es) scope
  expr-IsGrowing (Expr.unary op e _) scope = λ c h.
      expr-IsGrowing e scope c (
        check_operand-IsGrowing op (infer_expr e scope c).0 (expr_span e) (infer_expr e scope c).1
          h)
  expr-IsGrowing (Expr.binary l op r span) scope = λ c h.
      let c₁ = (infer_expr l scope c).1 in
      expr-IsGrowing l scope c (
        expr-IsGrowing r scope c₁ (
          check_operands-IsGrowing (is_logical op) (infer_expr l scope c).0
            (infer_expr r scope c₁).0 span (infer_expr r scope c₁).1 h))
  expr-IsGrowing (Expr.call callee args _) scope =
      infer_call-IsGrowing callee (infer_expr callee) (infer_object callee) args (infer_exprs args)
        (expr-IsGrowing callee) (object-IsGrowing callee) (exprs-IsGrowing args) scope
  expr-IsGrowing (Expr.field o f _) scope =
      infer_field-IsGrowing o (infer_expr o) f (expr-IsGrowing o) scope

  exprs-IsGrowing : (es : Exprs) → All GrowingInfer (infer_exprs es)
  exprs-IsGrowing nil = tt
  exprs-IsGrowing (cons e es) = (expr-IsGrowing e, exprs-IsGrowing es)

  object-IsGrowing : (e : Expr) → GrowingInfer (infer_object e)
  object-IsGrowing (Expr.field o _ _) scope = expr-IsGrowing o scope
  object-IsGrowing _ scope = λ _ h. h

pub infer_expr-IsGrowing : (e : Expr) → GrowingInfer (infer_expr e)
infer_expr-IsGrowing e = expr-IsGrowing e
