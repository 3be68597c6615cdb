-- ===== src/Semantic/SpendMet.antt =====
-- compiler/semantic/src/checker.rs: what a spend that `check_spend` leaves without an error satisfies.
use kaspa_script.Prelude.{
  ◌≡◌, refl, sym, ◌∙◌, String, Bool, true, false, List, [], ◌∷◌, map, All, any, ◌||◌, ◌&&◌,
}
use kaspa_script.Prelude.Text.{member, Distinct}
use kaspa_script.Syntax.Ast.{Param, Stmt, let_stmt, require, return, Spend, Contract}
use kaspa_script.Semantic.Checker.{Scope, contains, Checker, new}
use kaspa_script.Semantic.Shape.{input, output, no_facts}
use kaspa_script.Semantic.Kips.{spend_uses_name}
use kaspa_script.Semantic.Analyze.{
  Locals, check_spend_param, check_spend_params, check_stmt, check_stmts, no_finality, check_spend,
}
use kaspa_script.Semantic.InRange.{InRange, check_stmts-InRange}
use kaspa_script.Semantic.GrowingStmt.{check_shape_facts-IsGrowing, check_stmts-IsGrowing}
use kaspa_script.Semantic.Fresh.{
  param_names, Fresh, Fresh-Distinct, insert_name-met, not-true, demanded, contains-member,
}

abbrev pub is_require : Stmt → Bool
is_require (require _ _) = true
is_require _ = false

-- The indexes of a spend's inputs and outputs are below the counts that it states.
abbrev pub Ranged : Spend → Type 0
Ranged s = InRange input s.body × InRange output s.body

module _ (scope : Scope) where
  spend_params-met :
      (ps : List Param) (l : Locals) (c : Checker)
      → (check_spend_params scope ps l c).1.errors ≡ []
      → (c.errors ≡ [])
        × Fresh l.local_names (param_names ps)
        × All (λ n. contains n scope ≡ false) (param_names ps)
  unfolding check_spend_params check_spend_param Fresh
  spend_params-met [] l c h = (h, tt, tt)
  spend_params-met (p ∷ ps) l c h =
      let step = check_spend_param scope p l c in
      let (e, fresh, others) = spend_params-met ps step.0 step.1 h in
      let (e', new) = demanded _ _ _ _ e in
      let (e'', unshadowed) = demanded _ _ _ c e' in
      let (absent, grown) = insert_name-met p.name.name l.local_names new in
      (e'', (absent, rw grown at fresh), (not-true _ unshadowed, others))

or_false : (b : Bool) → b ≡ (b || false)
or_false true = refl
or_false false = refl

or_true : (b : Bool) → true ≡ (b || true)
or_true true = refl
or_true false = refl

or_assoc : (a b c : Bool) → ((a || b) || c) ≡ (a || (b || c))
or_assoc true b c = refl
or_assoc false b c = refl

params-require :
    (scope : Scope) (ps : List Param) (l : Locals) (c : Checker)
    → (check_spend_params scope ps l c).0.has_require ≡ l.has_require
unfolding check_spend_params check_spend_param
params-require scope [] l c = refl
params-require scope (p ∷ ps) l c =
    params-require scope ps (check_spend_param scope p l c).0 (check_spend_param scope p l c).1

stmt-require :
    (s : Stmt) (l : Locals) (c : Checker)
    → (check_stmt s l c).0.has_require ≡ (l.has_require || is_require s)
unfolding check_stmt
stmt-require (let_stmt name e _) l c = or_false l.has_require
stmt-require (require e _) l c = or_true l.has_require
stmt-require (return e _) l c = or_false l.has_require

stmts-require :
    (ss : List Stmt) (l : Locals) (c : Checker)
    → (check_stmts ss l c).0.has_require ≡ (l.has_require || any is_require ss)
unfolding check_stmts
stmts-require [] l c = or_false l.has_require
stmts-require (s ∷ ss) l c =
    rw (stmts-require ss (check_stmt s l c).0 (check_stmt s l c).1, stmt-require s l c)
      (or_assoc l.has_require (is_require s) (any is_require ss))

fresh_scope :
    (scope : Scope) (ns : List String)
    → All (λ n. contains n scope ≡ false) ns
    → All (λ n. member n (map (λ e. e.0) scope) ≡ false) ns
fresh_scope scope [] h = tt
fresh_scope scope (n ∷ ns) (h, hs) = (sym (contains-member n scope) ∙ h, fresh_scope scope ns hs)

module _ (contract : Contract) (scope : Scope) where
  pub spend-met :
      (s : Spend) (c : Checker)
      → (check_spend contract s scope c).1.errors ≡ []
      → (c.errors ≡ [])
        × (any is_require s.body ≡ true)
        × Distinct (param_names s.params)
        × All (λ n. member n (map (λ e. e.0) scope) ≡ false) (param_names s.params)
        × ((spend_uses_name s "covenant_id" && no_finality contract.finality_depth) ≡ false)
        × Ranged s
  unfolding check_spend
  spend-met s c h =
      let start : Locals = record {
        scope = scope;
        local_names = [];
        shape_facts = no_facts;
        continuation_names = [];
        has_require = false;
      } in
      let params = check_spend_params scope s.params start c in
      let body = check_stmts s.body params.0 params.1 in
      let e₁ = check_shape_facts-IsGrowing body.0.shape_facts _ h in
      let (e₂, set) = demanded _ _ _ _ e₁ in
      let (e₃, required) = demanded _ _ _ body.1 e₂ in
      let e₄ = check_stmts-IsGrowing s.body params.0 params.1 e₃ in
      let (e₅, fresh, others) = spend_params-met scope s.params start c e₄ in
      (
        e₅,
        rw (stmts-require s.body params.0 params.1, params-require scope s.params start c) at
            required,
        (Fresh-Distinct [] _ fresh).0,
        fresh_scope scope _ others,
        not-true _ set,
        (
          check_stmts-InRange input s.body params.0 params.1 _ e₃ h,
          check_stmts-InRange output s.body params.0 params.1 _ e₃ h,
        ),
      )
