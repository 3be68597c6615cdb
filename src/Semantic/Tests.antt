-- ===== src/Semantic/Tests.antt =====
-- The checker on a small program.
use kaspa_script.Prelude.{◌≡◌, ◌≢◌, refl, String, true, [], ◌∷◌, none, some, map, All}
use kaspa_script.Prelude.Fault.{ok}
use kaspa_script.Prelude.Text.{Distinct}
use kaspa_script.Syntax.Token.{Span, TypeName}
use kaspa_script.Syntax.Ast.{
  Ident, Param, Expr, BinaryOp, require, Spend, Contract, Program, nil, cons,
}
use kaspa_script.Semantic.Kips.{has_kip, collect_kip_requirements}
use kaspa_script.Semantic.Kips.Sorted.{known_kips, Ascending, collect_kip_requirements-Ascending}
use kaspa_script.Semantic.Analyze.{analyze_program}
use kaspa_script.Semantic.SpendMet.{Ranged}
use kaspa_script.Semantic.Accepted.{
  AcceptedContract, analyze_program-accepted, analyze_program-Ranged,
}
use kaspa_script.Codegen.Grounding.{record_for_kip}
use kaspa_script.Codegen.Grounding.Required.{record_for_kip-required}

abbrev pub here : Span
here = record { start = 0; end = 0 }

abbrev pub named : String → Ident
named name = record { name = name; span = here }

abbrev parameter : String → TypeName → Param
parameter name ty = record { name = named name; ty = ty; span = here }

-- `sig.verify(owner)`, `covenant_id.depth >= 5`, `output_count == 1` and `output(0).value >= 7`
abbrev pub vault_spend : Spend
vault_spend = record {
  name = named "unlock";
  params = parameter "sig" TypeName.signature ∷ [];
  body =
      require
        (Expr.call (Expr.field (Expr.ident (named "sig")) (named "verify") here)
          (cons (Expr.ident (named "owner")) nil) here)
        here
      ∷ require
          (Expr.binary (Expr.field (Expr.ident (named "covenant_id")) (named "depth") here)
            BinaryOp.greater_equal (Expr.integer 5 here) here)
          here
      ∷ require
          (Expr.binary (Expr.ident (named "output_count")) BinaryOp.equal (Expr.integer 1 here)
            here)
          here
      ∷ require
          (Expr.binary
            (Expr.field
              (Expr.call (Expr.ident (named "output")) (cons (Expr.integer 0 here) nil) here)
              (named "value") here)
            BinaryOp.greater_equal (Expr.integer 7 here) here)
          here
      ∷ [];
  span = here;
}

abbrev pub vault_contract : Contract
vault_contract = record {
  name = named "Vault";
  params = parameter "owner" TypeName.public_key ∷ [];
  finality_depth = some 10;
  spends = vault_spend ∷ [];
  span = here;
}

abbrev pub vault : Program
vault = record { contracts = vault_contract ∷ [] }

pub vault_accepted :
    analyze_program vault "contract" "vault.ks"
    ≡ ok (record { program = vault; kip_requirements = 10 ∷ 20 ∷ []; finality_depth = some 10 })
unfolding analyze_program
vault_accepted = refl

analyze_program-accepted_example :
    Distinct (map (λ k. k.name.name) vault.contracts) × All AcceptedContract vault.contracts
analyze_program-accepted_example =
    analyze_program-accepted vault "contract" "vault.ks" vault_accepted

analyze_program-Ranged_example : All (λ k. All Ranged k.spends) vault.contracts
analyze_program-Ranged_example = analyze_program-Ranged vault "contract" "vault.ks" vault_accepted

collect_kip_requirements-Ascending_example :
    Ascending (collect_kip_requirements vault)
    × All (λ k. has_kip k known_kips ≡ true) (collect_kip_requirements vault)
collect_kip_requirements-Ascending_example = collect_kip_requirements-Ascending vault

record_for_kip-required_example :
    All (λ k. record_for_kip k ≢ none) (collect_kip_requirements vault)
record_for_kip-required_example = record_for_kip-required vault
