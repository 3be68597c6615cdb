-- ===== src/Semantic/Accepted.antt =====
-- compiler/semantic/src/checker.rs: what a program that `analyze_program` accepts is known to satisfy.
use text.Mathlib.Text.{◌==◌ as str_eq}
use kaspa_script.Prelude.{
  ◌≡◌, refl, sym, ◌∙◌, String, true, false, List, [], ◌∷◌, map, All, All-map, any, ◌&&◌, Bool-cases,
  inl, inr,
}
use kaspa_script.Prelude.Fault.{ok, err-ne-ok}
use kaspa_script.Prelude.Text.{member, Distinct}
use kaspa_script.Syntax.Ast.{Param, Spend, Contract, Program}
use kaspa_script.Semantic.Failure.{SemanticError}
use kaspa_script.Semantic.Checker.{Scope, insert, insert_name, Checker, new}
use kaspa_script.Semantic.Kips.{spend_uses_name}
use kaspa_script.Semantic.Analyze.{
  no_finality, check_params, check_spends, is_zero_depth, set_spend_names, check_contract,
  check_contracts, check_program, Analysis, analysis_of, analyze_program,
}
use kaspa_script.Semantic.Fresh.{
  param_names, Fresh, Fresh-Distinct, insert_name-met, not-true, demanded, contains-member,
}
use kaspa_script.Semantic.SpendMet.{is_require, Ranged, spend-met}

-- A spend of an accepted contract.
pub record AcceptedSpend (contract : Contract) (s : Spend) : Type 0 where
  require_is_there : any is_require s.body ≡ true
  params_differ : Distinct (param_names s.params)
  no_shadow : All (λ n. member n (param_names contract.params) ≡ false) (param_names s.params)
  depth_is_set : (spend_uses_name s "covenant_id" && no_finality contract.finality_depth) ≡ false

pub record AcceptedContract (contract : Contract) : Type 0 where
  depth_is_not_zero : is_zero_depth contract.finality_depth ≡ false
  params_differ : Distinct (param_names contract.params)
  pub spends_differ : Distinct (map (λ s. s.name.name) contract.spends)
  each_spend : All (AcceptedSpend contract) contract.spends

bound :
    (n : String) (ps : List Param) (scope : Scope) (c : Checker)
    → member n (map (λ e. e.0) (check_params ps scope c).0) ≡ false
    → (member n (map (λ e. e.0) scope) ≡ false) × (member n (param_names ps) ≡ false)
unfolding check_params member insert
bound n [] scope c h = (h, refl)
bound n (p ∷ ps) scope c h =
    let (new, later) = bound n ps (insert p.name.name p.ty scope) _ h in
    elim (Bool-cases (str_eq n p.name.name)) [
      | inl same ↦ cc (rw same at new)
      | inr other ↦ (rw other at new, rw other later)
    ]

each_bound :
    (ns : List String) (ps : List Param) (c : Checker)
    → All (λ n. member n (map (λ e. e.0) (check_params ps [] c).0) ≡ false) ns
    → All (λ n. member n (param_names ps) ≡ false) ns
each_bound [] ps c h = tt
each_bound (n ∷ ns) ps c (h, hs) = ((bound n ps [] c h).1, each_bound ns ps c hs)

params-met :
    (ps : List Param) (scope : Scope) (c : Checker)
    → (check_params ps scope c).1.errors ≡ []
    → (c.errors ≡ []) × Fresh (map (λ e. e.0) scope) (param_names ps)
unfolding check_params Fresh insert
params-met [] scope c h = (h, tt)
params-met (p ∷ ps) scope c h =
    let (e, fresh) = params-met ps (insert p.name.name p.ty scope) _ h in
    let (e', new) = demanded _ _ _ c e in
    (e', (sym (contains-member p.name.name scope) ∙ not-true _ new, fresh))

spends-met :
    (contract : Contract) (before : Checker) (ss : List Spend) (seen : List String) (c : Checker)
    → (check_spends contract ss (check_params contract.params [] before).0 seen c).1.errors ≡ []
    → (c.errors ≡ [])
      × Fresh seen (map (λ s. s.name.name) ss)
      × All (λ s. AcceptedSpend contract s × Ranged s) ss
unfolding check_spends Fresh
spends-met contract before [] seen c h = (h, tt, tt)
spends-met contract before (s ∷ ss) seen c h =
    let (e, fresh, others) = spends-met contract before ss (insert_name s.name.name seen).1 _ h in
    let (e', required, differ, shadow, set, ranged) =
      spend-met contract (check_params contract.params [] before).0 s _ e in
    let (e'', new) = demanded _ _ _ c e' in
    let (absent, grown) = insert_name-met s.name.name seen new in
    let accepted : AcceptedSpend contract s = record {
      require_is_there = required;
      params_differ = differ;
      no_shadow = each_bound _ contract.params before shadow;
      depth_is_set = set;
    } in
    (e'', (absent, rw grown at fresh), ((accepted, ranged), others))

contract-met :
    (contract : Contract) (c : Checker)
    → (check_contract contract c).1.errors ≡ []
    → (c.errors ≡ []) × AcceptedContract contract × All Ranged contract.spends
unfolding check_contract set_spend_names
contract-met contract c h =
    let (e, spends, each) = spends-met contract _ contract.spends [] _ h in
    let (e', params) = params-met contract.params [] _ e in
    let (e'', depth) = demanded _ _ _ c e' in
    (
      e'',
      record {
        depth_is_not_zero = not-true _ depth;
        params_differ = (Fresh-Distinct [] _ params).0;
        spends_differ = (Fresh-Distinct [] _ spends).0;
        each_spend = All-map (λ _ h. h.0) contract.spends each;
      },
      All-map (λ _ h. h.1) contract.spends each,
    )

contracts-met :
    (cs : List Contract) (seen : List String) (c : Checker)
    → (check_contracts cs seen c).1.errors ≡ []
    → (c.errors ≡ [])
      × Fresh seen (map (λ k. k.name.name) cs)
      × All (λ k. AcceptedContract k × All Ranged k.spends) cs
unfolding check_contracts Fresh
contracts-met [] seen c h = (h, tt, tt)
contracts-met (k ∷ cs) seen c h =
    let (e, fresh, others) = contracts-met cs (insert_name k.name.name seen).1 _ h in
    let (e', accepted, ranged) = contract-met k _ e in
    let (e'', new) = demanded _ _ _ c e' in
    let (absent, grown) = insert_name-met k.name.name seen new in
    (e'', (absent, rw grown at fresh), ((accepted, ranged), others))

analysis_of-ok :
    (p : Program) (es : List SemanticError) {a : Analysis} → analysis_of p es ≡ ok a → es ≡ []
unfolding analysis_of
analysis_of-ok p [] h = refl
analysis_of-ok p (e ∷ es) h = absurd (err-ne-ok h)

-- Where the checker accepts a program, its contracts have different names; the parameters of a contract
-- differ, and so do its spends; a stated finality depth is not zero; each spend holds a `require`, its
-- parameters differ from each other and from those of its contract, and one that names `covenant_id`
-- stands in a contract whose finality depth is set and not zero.
pub analyze_program-accepted :
    (p : Program) (source file : String) {a : Analysis}
    → analyze_program p source file ≡ ok a
    → Distinct (map (λ k. k.name.name) p.contracts) × All AcceptedContract p.contracts
unfolding analyze_program check_program
analyze_program-accepted p source file h =
    let no_errors = analysis_of-ok p (check_program p (new source file)).1.errors h in
    let (_, fresh, accepted) = contracts-met p.contracts [] (new source file) no_errors in
    ((Fresh-Distinct [] _ fresh).0, All-map (λ _ k. k.0) p.contracts accepted)

-- Where the checker accepts a program, each literal index of an input or an output in the `require`
-- statements of a spend is below every exact count of inputs, or of outputs, that these state.
pub analyze_program-Ranged :
    (p : Program) (source file : String) {a : Analysis}
    → analyze_program p source file ≡ ok a
    → All (λ k. All Ranged k.spends) p.contracts
unfolding analyze_program check_program
analyze_program-Ranged p source file h =
    let no_errors = analysis_of-ok p (check_program p (new source file)).1.errors h in
    let (_, _, accepted) = contracts-met p.contracts [] (new source file) no_errors in
    All-map (λ _ k. k.1) p.contracts accepted
