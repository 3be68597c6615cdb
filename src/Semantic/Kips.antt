-- ===== src/Semantic/Kips.antt =====
-- compiler/semantic/src/checker.rs: the names that an expression uses, and the KIPs they require. The
-- `HashSet` of numbers is a list without repeats, which is sorted at the end.
pub mod Sorted
use text.Mathlib.Text.{◌==◌ as str_eq}
use kaspa_script.Prelude.{
  ℕ, String, Bool, true, false, List, [], ◌∷◌, leb, ◌==◌, ◌||◌, if◌then◌else◌,
}
use kaspa_script.Prelude.Text.{member}
use kaspa_script.Syntax.Ast.{
  Expr, Exprs, nil, cons, Stmt, let_stmt, require, return, Spend, Contract, Program,
}

unfoldable pub stmt_expr : Stmt → Expr
stmt_expr (let_stmt _ e _) = e
stmt_expr (require e _) = e
stmt_expr (return e _) = e

unfoldable mutual
  pub expr_uses_name : Expr → String → Bool
  expr_uses_name (Expr.ident i) name = str_eq i.name name
  expr_uses_name (Expr.array elements _) name = exprs_use_name elements name
  expr_uses_name (Expr.unary _ e _) name = expr_uses_name e name
  expr_uses_name (Expr.binary left _ right _) name =
      expr_uses_name left name || expr_uses_name right name
  expr_uses_name (Expr.call callee args _) name =
      expr_uses_name callee name || exprs_use_name args name
  expr_uses_name (Expr.field object f _) name = str_eq f.name name || expr_uses_name object name
  expr_uses_name _ name = false

  pub exprs_use_name : Exprs → String → Bool
  exprs_use_name nil name = false
  exprs_use_name (cons e es) name = expr_uses_name e name || exprs_use_name es name

unfoldable pub stmts_use_name : List Stmt → String → Bool
unfolding expr_uses_name stmt_expr
stmts_use_name [] name = false
stmts_use_name (s ∷ ss) name = expr_uses_name (stmt_expr s) name || stmts_use_name ss name

unfoldable pub spend_uses_name : Spend → String → Bool
unfolding stmts_use_name
spend_uses_name s name = stmts_use_name s.body name

unfoldable pub has_kip : ℕ → List ℕ → Bool
has_kip k [] = false
has_kip k (j ∷ ks) = if k == j then true else has_kip k ks

-- `kips.insert(k)`
unfoldable pub insert_kip : ℕ → List ℕ → List ℕ
unfolding has_kip
insert_kip k kips = if has_kip k kips then kips else k ∷ kips

unfoldable pub ident_kips : String → List ℕ → List ℕ
unfolding insert_kip member
ident_kips name kips =
    if member name ("input" ∷ "output" ∷ "input_count" ∷ "output_count" ∷ [])
    then insert_kip 10 kips
    else if str_eq name "covenant_id"
    then insert_kip 20 kips
    else if str_eq name "zk_verify"
    then insert_kip 16 kips
    else if str_eq name "sequencing"
    then insert_kip 15 kips
    else kips

unfoldable pub field_kips : String → List ℕ → List ℕ
unfolding insert_kip
field_kips name kips = if str_eq name "covenant_id" then insert_kip 20 kips else kips

unfoldable mutual
  unfolding ident_kips field_kips

  pub collect_expr_kips : Expr → List ℕ → List ℕ
  collect_expr_kips (Expr.ident i) kips = ident_kips i.name kips
  collect_expr_kips (Expr.array elements _) kips = collect_exprs_kips elements kips
  collect_expr_kips (Expr.unary _ e _) kips = collect_expr_kips e kips
  collect_expr_kips (Expr.binary left _ right _) kips =
      collect_expr_kips right (collect_expr_kips left kips)
  collect_expr_kips (Expr.call callee args _) kips =
      collect_exprs_kips args (collect_expr_kips callee kips)
  collect_expr_kips (Expr.field object f _) kips = collect_expr_kips object (field_kips f.name kips)
  collect_expr_kips _ kips = kips

  pub collect_exprs_kips : Exprs → List ℕ → List ℕ
  collect_exprs_kips nil kips = kips
  collect_exprs_kips (cons e es) kips = collect_exprs_kips es (collect_expr_kips e kips)

unfoldable pub collect_stmts_kips : List Stmt → List ℕ → List ℕ
unfolding collect_expr_kips stmt_expr
collect_stmts_kips [] kips = kips
collect_stmts_kips (s ∷ ss) kips = collect_stmts_kips ss (collect_expr_kips (stmt_expr s) kips)

unfoldable pub collect_spends_kips : List Spend → List ℕ → List ℕ
unfolding collect_stmts_kips
collect_spends_kips [] kips = kips
collect_spends_kips (s ∷ ss) kips = collect_spends_kips ss (collect_stmts_kips s.body kips)

unfoldable pub collect_contracts_kips : List Contract → List ℕ → List ℕ
unfolding collect_spends_kips
collect_contracts_kips [] kips = kips
collect_contracts_kips (c ∷ cs) kips = collect_contracts_kips cs (collect_spends_kips c.spends kips)

-- `sort_unstable` on numbers
unfoldable pub insert_sorted : ℕ → List ℕ → List ℕ
insert_sorted k [] = k ∷ []
insert_sorted k (j ∷ ks) = if leb k j then k ∷ j ∷ ks else j ∷ insert_sorted k ks

unfoldable pub sort : List ℕ → List ℕ
unfolding insert_sorted
sort [] = []
sort (k ∷ ks) = insert_sorted k (sort ks)

unfoldable pub collect_kip_requirements : Program → List ℕ
unfolding collect_contracts_kips sort
collect_kip_requirements program = sort (collect_contracts_kips program.contracts [])
