-- ===== src/Semantic/Analyze.antt =====
-- compiler/semantic/src/checker.rs: the checks of spends, contracts and programs, and the analysis.
use Prim.Native.String
use kaspa_script.Prelude.{
  ℕ, String, Bool, true, false, List, [], ◌∷◌, Option, none, some, map, length, ltb, ◌==◌, ◌&&◌,
  ◌||◌, not, if◌then◌else◌,
}
use kaspa_script.Prelude.Fault
use kaspa_script.Prelude.Fault.{Result}
use kaspa_script.Syntax.Token.{TypeName}
use kaspa_script.Syntax.Ast.{
  Ident, Param, expr_span, Stmt, let_stmt, require, return, Spend, Contract, Program,
}
use kaspa_script.Semantic.Failure.{SemanticError, AnalyzeError, AnalyzeFailure}
use kaspa_script.Semantic.Checker.{
  Scope, contains, insert, insert_name, new, Check, ◌>>=◌, ◌>>◌, pure, skip, error, demand,
}
use kaspa_script.Semantic.Infer.{has_type}
use kaspa_script.Semantic.Calls.{infer_expr}
use kaspa_script.Semantic.Shape.{
  ShapeFacts, no_facts, collect_shape_facts, check_shape_facts, collect_continuation_names,
}
use kaspa_script.Semantic.Kips.{spend_uses_name, collect_kip_requirements}

-- A message about a name, in back quotes.
abbrev pub quoted : String → String → String → String
quoted before name after =
    String.◌++◌ before (String.◌++◌ "`" (String.◌++◌ name (String.◌++◌ "`" after)))

-- What the loops over a spend carry.
pub record Locals : Type 0 where
  pub scope : Scope
  pub local_names : List String
  pub shape_facts : ShapeFacts
  pub continuation_names : List String
  pub has_require : Bool

unfoldable pub check_spend_param : Scope → Param → Locals → Check Locals
unfolding demand contains insert_name insert
check_spend_param contract_scope p l = do
  let name = p.name.name
  demand (not (contains name contract_scope)) p.name.span
      (quoted "spend parameter " name " shadows a contract parameter")
  let entry = insert_name name l.local_names
  demand entry.0 p.name.span (quoted "duplicate spend parameter " name "")
  pure (record l { local_names = entry.1; scope = insert name p.ty l.scope })

unfoldable pub check_spend_params : Scope → List Param → Locals → Check Locals
unfolding check_spend_param
check_spend_params contract_scope [] l = pure l
check_spend_params contract_scope (p ∷ ps) l = do
  l' ← check_spend_param contract_scope p l
  check_spend_params contract_scope ps l'

unfoldable pub bind_type : Ident → Option TypeName → Scope → Scope
unfolding insert
bind_type name none scope = scope
bind_type name (some ty) scope = insert name.name ty scope

unfoldable pub check_stmt : Stmt → Locals → Check Locals
unfolding infer_expr insert_name contains error bind_type demand has_type collect_shape_facts
    collect_continuation_names expr_span
check_stmt (let_stmt name e _) l = do
  ty ← infer_expr e l.scope
  let entry = insert_name name.name l.local_names
  let duplicate = not entry.0 || contains name.name l.scope
  demand (not duplicate) name.span (quoted "duplicate let binding " name.name "")
  pure (record l {
    local_names = entry.1;
    scope = if duplicate then l.scope else bind_type name ty l.scope;
  })
check_stmt (require e _) l = do
  ty ← infer_expr e l.scope
  demand (has_type TypeName.bool ty) (expr_span e) "`require` expression must be Bool"
  facts ← collect_shape_facts e l.shape_facts
  names ← collect_continuation_names e l.continuation_names
  pure (record l { has_require = true; shape_facts = facts; continuation_names = names })
check_stmt (return e _) l = do _ ← infer_expr e l.scope; pure l

unfoldable pub check_stmts : List Stmt → Locals → Check Locals
unfolding check_stmt
check_stmts [] l = pure l
check_stmts (s ∷ ss) l = do l' ← check_stmt s l; check_stmts ss l'

-- `contract.finality_depth.unwrap_or(0) == 0`
unfoldable pub no_finality : Option ℕ → Bool
no_finality none = true
no_finality (some n) = n == 0

unfoldable pub check_spend : Contract → Spend → Scope → Check (Unit {0})
unfolding check_spend_params check_stmts demand spend_uses_name no_finality check_shape_facts
check_spend contract spend contract_scope = do
  let start : Locals = record {
    scope = contract_scope;
    local_names = [];
    shape_facts = no_facts;
    continuation_names = [];
    has_require = false;
  }
  l ← check_spend_params contract_scope spend.params start
  l' ← check_stmts spend.body l
  demand l'.has_require spend.name.span
      (quoted "spend " spend.name.name " must contain at least one require")
  demand (not (spend_uses_name spend "covenant_id" && no_finality contract.finality_depth))
      spend.name.span "`covenant_id` requires `finality_depth` > 0"
  check_shape_facts l'.shape_facts

unfoldable pub check_params : List Param → Scope → Check Scope
unfolding demand contains insert
check_params [] scope = pure scope
check_params (p ∷ ps) scope = do
  demand (not (contains p.name.name scope)) p.name.span
      (quoted "duplicate parameter " p.name.name "")
  check_params ps (insert p.name.name p.ty scope)

unfoldable pub check_spends : Contract → List Spend → Scope → List String → Check (Unit {0})
unfolding insert_name demand check_spend
check_spends contract [] scope seen = skip
check_spends contract (s ∷ ss) scope seen = do
  let entry = insert_name s.name.name seen
  demand entry.0 s.name.span (quoted "duplicate spend " s.name.name "")
  check_spend contract s scope
  check_spends contract ss scope entry.1

unfoldable pub is_zero_depth : Option ℕ → Bool
is_zero_depth none = false
is_zero_depth (some n) = n == 0

unfoldable pub set_spend_names : List String → Check (Unit {0})
set_spend_names names c = (tt, record c { spend_names = names })

unfoldable pub check_contract : Contract → Check (Unit {0})
unfolding demand is_zero_depth check_params set_spend_names check_spends
check_contract contract = do
  demand (not (is_zero_depth contract.finality_depth)) contract.name.span
      "`finality_depth` must be > 0"
  scope ← check_params contract.params []
  set_spend_names (map (λ s. s.name.name) contract.spends)
  check_spends contract contract.spends scope []

unfoldable pub check_contracts : List Contract → List String → Check (Unit {0})
unfolding insert_name demand check_contract
check_contracts [] seen = skip
check_contracts (c ∷ cs) seen = do
  let entry = insert_name c.name.name seen
  demand entry.0 c.name.span (quoted "duplicate contract " c.name.name "")
  check_contract c
  check_contracts cs entry.1

unfoldable pub check_program : Program → Check (Unit {0})
unfolding check_contracts
check_program program = check_contracts program.contracts []

pub record Analysis : Type 0 where
  pub program : Program
  pub kip_requirements : List ℕ
  pub finality_depth : Option ℕ

unfoldable pub max_depth : Option ℕ → Option ℕ → Option ℕ
max_depth none b = b
max_depth (some a) none = some a
max_depth (some a) (some b) = some (if ltb b a then a else b)

unfoldable pub max_finality_depth : List Contract → Option ℕ
unfolding max_depth
max_finality_depth [] = none
max_finality_depth (c ∷ cs) = max_depth c.finality_depth (max_finality_depth cs)

unfoldable pub analysis_of : Program → List SemanticError → Result AnalyzeFailure Analysis
unfolding collect_kip_requirements max_finality_depth
analysis_of program [] = Fault.ok (record {
  program = program;
  kip_requirements = collect_kip_requirements program;
  finality_depth = max_finality_depth program.contracts;
})
analysis_of program (e ∷ es) =
    Fault.err (record { error = AnalyzeError.semantic (length (e ∷ es)); errors = e ∷ es })

unfoldable pub analyze_program : Program → String → String → Result AnalyzeFailure Analysis
unfolding check_program new analysis_of
analyze_program program source file =
    let checked = check_program program (new source file) in analysis_of program checked.1.errors
