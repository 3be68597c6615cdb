-- ===== src/Semantic/GrowingStmt.antt =====
-- The checks of shapes, statements and spends only add errors (compiler/semantic/src/checker.rs).
use kaspa_script.Prelude.{ℕ, String, List, [], ◌∷◌, Option, none, some, leb, ◌^◌, ◌-◌, not, ◌==◌}
use kaspa_script.Syntax.Token.{Span, TypeName}
use kaspa_script.Syntax.Ast.{
  Param, Expr, Exprs, BinaryOp, Stmt, let_stmt, require, return, nil, cons, expr_span,
}
use kaspa_script.Semantic.Checker.{Scope, demand, contains, insert_name}
use kaspa_script.Semantic.Calls.{infer_expr}
use kaspa_script.Semantic.Infer.{has_type}
use kaspa_script.Semantic.Shape.{
  CountFacts, ShapeFacts, CountSubject, merge_exact, record_exact, exact_count_constraint, facts_of,
  collect_exact_counts_from_conjunction, collect_shape_facts, exceeds_index, check_count_facts,
  check_shape_facts, continuation_name, note_continuation, collect_continuation_names,
  collect_all_continuations,
}
use kaspa_script.Semantic.Analyze.{
  Locals, quoted, check_spend_param, check_spend_params, check_stmt, check_stmts,
}
use kaspa_script.Semantic.Growing.{IsGrowing, IsGrowing-skip, IsGrowing-demand}
use kaspa_script.Semantic.GrowingExpr.{infer_expr-IsGrowing}

merge_exact-IsGrowing :
    (o : Option (ℕ × Span)) (value : ℕ) (span : Span) (counts : CountFacts)
    → IsGrowing (merge_exact o value span counts)
unfolding merge_exact
merge_exact-IsGrowing (some (existing, _)) value span counts =
    IsGrowing-demand (existing == value) span _
merge_exact-IsGrowing none value span counts = λ _ h. h

record_exact-IsGrowing :
    (o : Option (CountSubject × ℕ × Span)) (facts : ShapeFacts) → IsGrowing (record_exact o facts)
unfolding record_exact
record_exact-IsGrowing none facts = λ _ h. h
record_exact-IsGrowing (some (subject, value, span)) facts = λ c h.
    IsGrowing-demand (leb value (2 ^ 32 - 1)) span _ c
      (merge_exact-IsGrowing (facts_of subject facts).exact value span (facts_of subject facts) _ h)

pub exact_counts-IsGrowing :
    (e : Expr) (facts : ShapeFacts) → IsGrowing (collect_exact_counts_from_conjunction e facts)
unfolding collect_exact_counts_from_conjunction
exact_counts-IsGrowing (Expr.binary left BinaryOp.and right _) facts = λ c h.
    exact_counts-IsGrowing left facts c (
      exact_counts-IsGrowing right (collect_exact_counts_from_conjunction left facts c).0
        (collect_exact_counts_from_conjunction left facts c).1 h)
exact_counts-IsGrowing e facts = record_exact-IsGrowing (exact_count_constraint e) facts

collect_shape_facts-IsGrowing :
    (e : Expr) (facts : ShapeFacts) → IsGrowing (collect_shape_facts e facts)
unfolding collect_shape_facts
collect_shape_facts-IsGrowing e facts = exact_counts-IsGrowing e facts

pub exceeds_index-IsGrowing :
    (exact max_index : Option (ℕ × Span)) (label : String)
    → IsGrowing (exceeds_index exact max_index label)
unfolding exceeds_index
exceeds_index-IsGrowing (some (exact, _)) (some (max_index, span)) label = IsGrowing-demand _ span _
exceeds_index-IsGrowing (some _) none label = IsGrowing-skip
exceeds_index-IsGrowing none max_index label = IsGrowing-skip

pub check_shape_facts-IsGrowing : (facts : ShapeFacts) → IsGrowing (check_shape_facts facts)
unfolding check_shape_facts check_count_facts
check_shape_facts-IsGrowing facts c h =
    exceeds_index-IsGrowing facts.inputs.exact facts.inputs.max_index "input_count" c
      (exceeds_index-IsGrowing facts.outputs.exact facts.outputs.max_index "output_count" _ h)

note_continuation-IsGrowing :
    (o : Option (String × Span)) (names : List String) → IsGrowing (note_continuation o names)
unfolding note_continuation
note_continuation-IsGrowing none names = λ _ h. h
note_continuation-IsGrowing (some (name, span)) names =
    IsGrowing-demand (insert_name name names).0 span _

mutual
  unfolding collect_continuation_names

  pub continuations-IsGrowing :
      (e : Expr) (names : List String) → IsGrowing (collect_continuation_names e names)
  continuations-IsGrowing (Expr.ident _) names = λ _ h. h
  continuations-IsGrowing (Expr.integer _ _) names = λ _ h. h
  continuations-IsGrowing (Expr.string _ _) names = λ _ h. h
  continuations-IsGrowing (Expr.bool _ _) names = λ _ h. h
  continuations-IsGrowing (Expr.array es _) names = all_continuations-IsGrowing es names
  continuations-IsGrowing (Expr.unary _ e _) names = continuations-IsGrowing e names
  continuations-IsGrowing (Expr.binary l _ r _) names = λ c h.
      let left = collect_continuation_names l names c in
      continuations-IsGrowing l names c (continuations-IsGrowing r left.0 left.1 h)
  continuations-IsGrowing (Expr.call callee args span) names = λ c h.
      let noted = note_continuation (continuation_name (Expr.call callee args span)) names c in
      let found = collect_continuation_names callee noted.0 noted.1 in
      note_continuation-IsGrowing (continuation_name (Expr.call callee args span)) names c (
        continuations-IsGrowing callee noted.0 noted.1
          (all_continuations-IsGrowing args found.0 found.1 h))
  continuations-IsGrowing (Expr.field o _ _) names = continuations-IsGrowing o names

  all_continuations-IsGrowing :
      (es : Exprs) (names : List String) → IsGrowing (collect_all_continuations es names)
  all_continuations-IsGrowing nil names = λ _ h. h
  all_continuations-IsGrowing (cons e es) names = λ c h.
      let found = collect_continuation_names e names c in
      continuations-IsGrowing e names c (all_continuations-IsGrowing es found.0 found.1 h)

pub check_stmt-IsGrowing : (s : Stmt) (l : Locals) → IsGrowing (check_stmt s l)
unfolding check_stmt
check_stmt-IsGrowing (let_stmt name e _) l = λ c h.
    infer_expr-IsGrowing e l.scope c (IsGrowing-demand _ name.span _ (infer_expr e l.scope c).1 h)
check_stmt-IsGrowing (require e _) l = λ c h.
    let typed = infer_expr e l.scope c in
    let demanded =
      demand (has_type TypeName.bool typed.0) (expr_span e) "`require` expression must be Bool"
        typed.1 in
    let shaped = collect_shape_facts e l.shape_facts demanded.1 in
    infer_expr-IsGrowing e l.scope c (
      IsGrowing-demand (has_type TypeName.bool typed.0) (expr_span e) _ typed.1 (
        collect_shape_facts-IsGrowing e l.shape_facts demanded.1
          (continuations-IsGrowing e l.continuation_names shaped.1 h)))
check_stmt-IsGrowing (return e _) l = infer_expr-IsGrowing e l.scope

pub check_stmts-IsGrowing : (ss : List Stmt) (l : Locals) → IsGrowing (check_stmts ss l)
unfolding check_stmts
check_stmts-IsGrowing [] l = λ _ h. h
check_stmts-IsGrowing (s ∷ ss) l = λ c h.
    check_stmt-IsGrowing s l c
      (check_stmts-IsGrowing ss (check_stmt s l c).0 (check_stmt s l c).1 h)

check_spend_param-IsGrowing :
    (scope : Scope) (p : Param) (l : Locals) → IsGrowing (check_spend_param scope p l)
unfolding check_spend_param
check_spend_param-IsGrowing scope p l = λ c h.
    let shadowed =
      demand (not (contains p.name.name scope)) p.name.span
        (quoted "spend parameter " p.name.name " shadows a contract parameter") c in
    IsGrowing-demand (not (contains p.name.name scope)) p.name.span _ c
      (IsGrowing-demand (insert_name p.name.name l.local_names).0 p.name.span _ shadowed.1 h)

pub check_spend_params-IsGrowing :
    (scope : Scope) (ps : List Param) (l : Locals) → IsGrowing (check_spend_params scope ps l)
unfolding check_spend_params
check_spend_params-IsGrowing scope [] l = λ _ h. h
check_spend_params-IsGrowing scope (p ∷ ps) l = λ c h. check_spend_param-IsGrowing scope p l c (
    check_spend_params-IsGrowing scope ps (check_spend_param scope p l c).0
      (check_spend_param scope p l c).1 h)
