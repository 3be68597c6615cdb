-- ===== src/Application/Build.antt =====
-- compiler/ir/src/application.rs: the models of spends, contracts and programs. The first argument is
-- the text that the standard library writes for a string.
use kaspa_script.Prelude.{
  ℕ, suc, String, Bool, true, false, List, [], ◌∷◌, ◌++◌, Option, none, some, map, if◌then◌else◌,
}
use kaspa_script.Syntax.Ast.{Param, expr_span, Stmt, require, Spend, Contract, Program}
use kaspa_script.Application.Model.{
  Parameter, ConstraintKind, Constraint, MonetaryResponsibility, OutputBinding, TransitionModel,
  ContractModel, ApplicationModel,
}
use kaspa_script.Application.Assurances.{new}
use kaspa_script.Application.Normalize.{normalize_expression, classify_constraint}
use kaspa_script.Application.Shape.{
  IndexSets, collect_transaction_indexes, output_binding, ExactCounts, exact_transaction_counts,
}
use kaspa_script.Application.Successors.{option_list, named_successor_outputs, continuation_model}
use kaspa_script.Application.Signing.{signing_requirements}

unfoldable pub parameter : Param → Parameter
parameter p = record { name = p.name.name; ty = p.ty }

-- The constraint of each `require`.
unfoldable pub constraints_of : (String → String) → List Stmt → List Constraint
unfolding classify_constraint normalize_expression expr_span
constraints_of debug [] = []
constraints_of debug (require e _ ∷ ss) =
    record {
      kind = classify_constraint e;
      expression = normalize_expression debug e;
      source_span = expr_span e;
    }
    ∷ constraints_of debug ss
constraints_of debug (_ ∷ ss) = constraints_of debug ss

unfoldable pub referenced_indexes : List Constraint → IndexSets → IndexSets
unfolding collect_transaction_indexes
referenced_indexes [] sets = sets
referenced_indexes (c ∷ cs) sets =
    referenced_indexes cs (collect_transaction_indexes c.expression sets)

-- The binding of each `require` that has one.
unfoldable pub bindings_of : (String → String) → List Stmt → List OutputBinding
unfolding output_binding option_list
bindings_of debug [] = []
bindings_of debug (require e _ ∷ ss) = option_list (output_binding debug e) ++ bindings_of debug ss
bindings_of debug (_ ∷ ss) = bindings_of debug ss

unfoldable pub is_value : ConstraintKind → Bool
is_value ConstraintKind.value = true
is_value _ = false

unfoldable pub count_values : List Constraint → ℕ
unfolding is_value
count_values [] = 0
count_values (c ∷ cs) = let rest = count_values cs in if is_value c.kind then suc rest else rest

unfoldable pub is_none : Option ℕ → Bool
is_none none = true
is_none (some _) = false

abbrev pub no_indexes : IndexSets
no_indexes = record { inputs = []; outputs = [] }

abbrev pub no_exact : ExactCounts
no_exact = record { input_count = none; output_count = none }

unfoldable pub build_transition_model : (String → String) → Spend → TransitionModel
unfolding parameter constraints_of referenced_indexes bindings_of count_values is_none
    exact_transaction_counts named_successor_outputs continuation_model signing_requirements
build_transition_model debug spend =
    let constraints = constraints_of debug spend.body in
    let referenced = referenced_indexes constraints no_indexes in
    let output_bindings = bindings_of debug spend.body in
    let exact = exact_transaction_counts spend.body no_exact in
    record {
      name = spend.name.name;
      arguments = map parameter spend.params;
      signing_requirements = signing_requirements debug spend.body;
      constraints = constraints;
      transaction_shape = record {
        referenced_inputs = referenced.inputs;
        referenced_outputs = referenced.outputs;
        exact_input_count = exact.input_count;
        exact_output_count = exact.output_count;
        additional_inputs_permitted = is_none exact.input_count;
        additional_outputs_permitted = is_none exact.output_count;
      };
      monetary_policy = record {
        value_constraint_count = count_values constraints;
        fee_handling = MonetaryResponsibility.external_explicit;
        change_handling = MonetaryResponsibility.external_explicit;
        compiler_injects_outputs = false;
        compiler_injects_recipients = false;
      };
      output_bindings = output_bindings;
      continuation = continuation_model output_bindings (named_successor_outputs spend.body);
    }

unfoldable pub contract_model : (String → String) → Contract → ContractModel
unfolding parameter build_transition_model
contract_model debug c = record {
  name = c.name.name;
  state = map parameter c.params;
  finality_depth = c.finality_depth;
  transitions = map (build_transition_model debug) c.spends;
}

unfoldable pub build_application_model : (String → String) → Program → ApplicationModel
unfolding new contract_model
build_application_model debug program = new (map (contract_model debug) program.contracts)
