-- ===== src/Application/Tests.antt =====
-- The application model of a small program.
use mathlib.Core.List.{Memᴰ}
use kaspa_script.Application.Letters.{letters, Quotes}
use kaspa_script.Application.Bounded.{WithinBoth, build_transition_model-Within}
use kaspa_script.Prelude.{◌≡◌, refl, String, List, [], ◌∷◌, some, any, All, false}
use kaspa_script.Syntax.Ast.{Expr}
use kaspa_script.Semantic.Kips.Sorted.{Ascending}
use kaspa_script.Semantic.Tests.{here, named, vault, vault_spend, vault_contract, vault_accepted}
use kaspa_script.Application.Model.{
  OutputField, BinaryOperator, OutputBinding, NormalizedExpression, transition,
}
use kaspa_script.Application.Normalize.{expression_path, expression_label}
use kaspa_script.Application.Successors.{is_covenant, is_script, continuation_model}
use kaspa_script.Application.Build.{build_transition_model, build_application_model}
use kaspa_script.Application.Ordered.{build_transition_model-Ascending}
use kaspa_script.Application.Path.{expression_path-label}
use kaspa_script.Application.Lookup.{transition-build_application_model}
use kaspa_script.Application.Continuation.{kind_by, continuation_model-kind}

-- A quote in front.
abbrev quote : String → String
quote s = String.◌∷◌ "\"" s

abbrev plain : String → String
plain s = s

build_transition_model-Ascending_example :
    Ascending (build_transition_model plain vault_spend).transaction_shape.referenced_inputs
    × Ascending (build_transition_model plain vault_spend).transaction_shape.referenced_outputs
    × Ascending (build_transition_model plain vault_spend).continuation.successor_outputs
build_transition_model-Ascending_example = build_transition_model-Ascending plain vault_spend

abbrev chain : Expr
chain = Expr.field (Expr.field (Expr.ident (named "a")) (named "b") here) (named "c") here

expression_path-label_example : expression_path plain chain ≡ expression_label plain chain
expression_path-label_example = expression_path-label plain chain

transition-build_application_model_example :
    transition (build_application_model plain vault) "Vault" "unlock"
    ≡ some (build_transition_model plain vault_spend)
transition-build_application_model_example =
    transition-build_application_model plain vault "contract" "vault.ks" {c = vault_contract}
      {s = vault_spend} vault_accepted (Memᴰ.head refl) (Memᴰ.head refl)

abbrev script_bound : List OutputBinding
script_bound =
    record {
      output_index = 0;
      field = OutputField.script;
      relation = BinaryOperator.equal;
      expected = NormalizedExpression.symbol "seller";
    }
    ∷ []

continuation_model-kind_example :
    (continuation_model script_bound []).kind
    ≡ kind_by
        (any (λ b. is_covenant b.field) script_bound)
        (any (λ b. is_script b.field) script_bound)
        false
continuation_model-kind_example = continuation_model-kind script_bound []

quoted : Quotes quote
unfolding letters
quoted s = refl

build_transition_model-Within_example :
    All
      (λ c. All (λ s. WithinBoth (build_transition_model quote s).transaction_shape) c.spends)
      vault.contracts
build_transition_model-Within_example =
    build_transition_model-Within quote vault "contract" "vault.ks" quoted vault_accepted
