-- ===== src/Semantic/InRange.antt =====
-- compiler/semantic/src/checker.rs: the indexes of a spend, against the counts that it states.
use kaspa_script.Prelude.{
  ℕ, ◌<◌, ◌≡◌, String, List, [], ◌∷◌, ◌++◌, Option, none, some, All, All-append, All-map, ltb,
  ltb→lt, arith,
}
use kaspa_script.Syntax.Token.{Span, TypeName}
use kaspa_script.Syntax.Ast.{Expr, Stmt, let_stmt, require, return, expr_span}
use kaspa_script.Semantic.Checker.{Checker, demand}
use kaspa_script.Semantic.Infer.{has_type}
use kaspa_script.Semantic.Calls.{infer_expr}
use kaspa_script.Semantic.Shape.{
  ShapeFacts, CountSubject, input, output, facts_of, collect_shape_facts, exceeds_index,
  check_count_facts, check_shape_facts,
}
use kaspa_script.Semantic.Shape.Indexes.{Under, Bounds, indexes}
use kaspa_script.Semantic.Shape.Counts.{
  Exactly, Counts, Held, counts, collect_shape_facts-Held, collect_shape_facts-new,
}
use kaspa_script.Semantic.Analyze.{Locals, check_stmt, check_stmts}
use kaspa_script.Semantic.Growing.{demand-met}
use kaspa_script.Semantic.GrowingStmt.{
  continuations-IsGrowing, check_stmts-IsGrowing, exceeds_index-IsGrowing,
}

-- The counts and the indexes in the `require` statements of a body.
unfoldable pub body_counts : CountSubject → List Stmt → List ℕ
unfolding counts
body_counts s [] = []
body_counts s (require e _ ∷ ss) = counts s e ++ body_counts s ss
body_counts s (_ ∷ ss) = body_counts s ss

unfoldable pub body_indexes : CountSubject → List Stmt → List ℕ
unfolding indexes
body_indexes s [] = []
body_indexes s (require e _ ∷ ss) = indexes s e ++ body_indexes s ss
body_indexes s (_ ∷ ss) = body_indexes s ss

-- Each index is below each stated count.
abbrev pub InRange : CountSubject → List Stmt → Type 0
InRange s ss = All (λ n. All (λ i. i < n) (body_indexes s ss)) (body_counts s ss)

check_stmt-Held :
    (st : Stmt) (l : Locals) (c : Checker) → Held l.shape_facts (check_stmt st l c).0.shape_facts
unfolding check_stmt
check_stmt-Held (let_stmt name e _) l c s = (λ n h. h, λ i h. h)
check_stmt-Held (require e _) l c s = collect_shape_facts-Held e l.shape_facts _ s
check_stmt-Held (return e _) l c s = (λ n h. h, λ i h. h)

check_stmts-Held :
    (ss : List Stmt) (l : Locals) (c : Checker)
    → Held l.shape_facts (check_stmts ss l c).0.shape_facts
unfolding check_stmts
check_stmts-Held [] l c s = (λ n h. h, λ i h. h)
check_stmts-Held (st ∷ ss) l c s =
    let next = check_stmt st l c in
    let (counted, bounded) = check_stmt-Held st l c s in
    let (counted', bounded') = check_stmts-Held ss next.0 next.1 s in
    (λ n h. counted' n (counted n h), λ i h. bounded' i (bounded i h))

-- What the facts hold after a `require`.
require-new :
    (s : CountSubject) (e : Expr) (span : Span) (l : Locals) (c : Checker)
    → (check_stmt (require e span) l c).1.errors ≡ []
    → All (Counts s (check_stmt (require e span) l c).0.shape_facts) (counts s e)
      × All (Bounds s (check_stmt (require e span) l c).0.shape_facts) (indexes s e)
unfolding check_stmt
require-new s e span l c h =
    let typed = infer_expr e l.scope c in
    let demanded =
      demand (has_type TypeName.bool typed.0) (expr_span e) "`require` expression must be Bool"
        typed.1 in
    let shaped = collect_shape_facts e l.shape_facts demanded.1 in
    collect_shape_facts-new s e l.shape_facts demanded.1
      (continuations-IsGrowing e l.continuation_names shaped.1 h)

stmts-new :
    (s : CountSubject) (ss : List Stmt) (l : Locals) (c : Checker)
    → (check_stmts ss l c).1.errors ≡ []
    → All (Counts s (check_stmts ss l c).0.shape_facts) (body_counts s ss)
      × All (Bounds s (check_stmts ss l c).0.shape_facts) (body_indexes s ss)
unfolding check_stmts body_counts body_indexes
stmts-new s [] l c h = (tt, tt)
stmts-new s (let_stmt name e span ∷ ss) l c h = stmts-new s ss _ _ h
stmts-new s (return e span ∷ ss) l c h = stmts-new s ss _ _ h
stmts-new s (require e span ∷ ss) l c h =
    let next = check_stmt (require e span) l c in
    let (counted, bounded) = require-new s e span l c (check_stmts-IsGrowing ss next.0 next.1 h) in
    let held = check_stmts-Held ss next.0 next.1 s in
    let (counted', bounded') = stmts-new s ss next.0 next.1 h in
    (
      All-append _ (counts s e) (body_counts s ss) (All-map held.0 (counts s e) counted) counted',
      All-append _ (indexes s e) (body_indexes s ss) (All-map held.1 (indexes s e) bounded)
          bounded',
    )

below :
    (exact max_index : Option (ℕ × Span)) (label : String) (c : Checker)
    → (exceeds_index exact max_index label c).1.errors ≡ []
    → (n i : ℕ) → Exactly exact n
    → Under max_index i
    → i < n
unfolding exceeds_index
below (some (m, _)) (some (k, span)) label c h n i e u =
    let less = ltb→lt k m (demand-met (ltb k m) span _ c h) in omega (arith, e, u, less)
below (some _) none label c h n i e u = absurd u
below none max_index label c h n i e u = absurd e

checked-below :
    (s : CountSubject) (facts : ShapeFacts) (c : Checker)
    → (check_shape_facts facts c).1.errors ≡ []
    → (n i : ℕ) → Counts s facts n
    → Bounds s facts i
    → i < n
unfolding check_shape_facts check_count_facts facts_of
checked-below input facts c h n i e u =
    below facts.inputs.exact facts.inputs.max_index "input_count" c
      (exceeds_index-IsGrowing facts.outputs.exact facts.outputs.max_index "output_count" _ h) n i e
      u
checked-below output facts c h n i e u =
    below facts.outputs.exact facts.outputs.max_index "output_count" _ h n i e u

pub check_stmts-InRange :
    (s : CountSubject) (ss : List Stmt) (l : Locals) (c c' : Checker)
    → (check_stmts ss l c).1.errors ≡ []
    → (check_shape_facts (check_stmts ss l c).0.shape_facts c').1.errors ≡ []
    → InRange s ss
check_stmts-InRange s ss l c c' h k =
    let (counted, bounded) = stmts-new s ss l c h in
    All-map
      (λ n e.
        All-map (λ i u. checked-below s (check_stmts ss l c).0.shape_facts c' k n i e u)
          (body_indexes s ss) bounded)
      (body_counts s ss) counted
