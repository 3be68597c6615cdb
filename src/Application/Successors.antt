-- ===== src/Application/Successors.antt =====
-- compiler/ir/src/application.rs: the successors that a spend names, and its continuation.
use text.Mathlib.Text.{◌==◌ as str_eq}
use kaspa_script.Prelude.{
  ℕ, String, Bool, true, false, List, [], ◌∷◌, ◌++◌, Option, none, some, map, if◌then◌else◌,
}
use kaspa_script.Syntax.Ast
use kaspa_script.Syntax.Ast.{Expr, Exprs, Stmt, require, second}
use kaspa_script.Application.Model.{
  OutputField, OutputBinding, ContinuationKind, NamedContinuationOutput, ContinuationModel,
}
use kaspa_script.Application.Shape.{extend, both, output_call_index}

unfoldable pub first_string : Exprs → Option String
first_string (Ast.cons (Expr.string value _) _) = some value
first_string _ = none

unfoldable pub and_then : {A B : Type 0} → Option A → (A → Option B) → Option B
and_then none f = none
and_then (some a) f = f a

unfoldable pub named_of : Option (String × ℕ) → Option NamedContinuationOutput
named_of none = none
named_of (some (name, i)) = some record { name = name; output_index = i }

unfoldable pub named_successor_output : Expr → Option NamedContinuationOutput
unfolding named_of both first_string and_then second output_call_index
named_successor_output (Expr.call (Expr.ident i) args _) =
    if str_eq i.name "continuation"
    then named_of (both (first_string args) (and_then (second args) output_call_index))
    else none
named_successor_output _ = none

unfoldable pub option_list : {A : Type 0} → Option A → List A
option_list none = []
option_list (some a) = a ∷ []

unfoldable mutual
  unfolding named_successor_output option_list

  -- The outputs that an expression names, in the order in which they are pushed.
  pub collect_named_successor_outputs : Expr → List NamedContinuationOutput
  collect_named_successor_outputs (Expr.array elements _) = collect_all_successors elements
  collect_named_successor_outputs (Expr.unary _ e _) = collect_named_successor_outputs e
  collect_named_successor_outputs (Expr.binary left _ right _) =
      collect_named_successor_outputs left ++ collect_named_successor_outputs right
  collect_named_successor_outputs (Expr.call callee args span) =
      option_list (named_successor_output (Expr.call callee args span))
      ++ collect_named_successor_outputs callee
      ++ collect_all_successors args
  collect_named_successor_outputs (Expr.field object _ _) = collect_named_successor_outputs object
  collect_named_successor_outputs _ = []

  pub collect_all_successors : Exprs → List NamedContinuationOutput
  collect_all_successors Ast.nil = []
  collect_all_successors (Ast.cons e es) =
      collect_named_successor_outputs e ++ collect_all_successors es

unfoldable pub named_successor_outputs : List Stmt → List NamedContinuationOutput
unfolding collect_named_successor_outputs
named_successor_outputs [] = []
named_successor_outputs (require e _ ∷ ss) =
    collect_named_successor_outputs e ++ named_successor_outputs ss
named_successor_outputs (_ ∷ ss) = named_successor_outputs ss

unfoldable pub is_covenant : OutputField → Bool
is_covenant OutputField.covenant_id = true
is_covenant _ = false

unfoldable pub is_script : OutputField → Bool
is_script OutputField.script = true
is_script _ = false

-- The indexes of the bindings whose field passes a test.
unfoldable pub bound_indexes : (OutputField → Bool) → List OutputBinding → List ℕ
bound_indexes p [] = []
bound_indexes p (b ∷ bs) =
    let rest = bound_indexes p bs in if p b.field then b.output_index ∷ rest else rest

unfoldable pub continuation_of :
    ContinuationKind → List ℕ → List NamedContinuationOutput → String → ContinuationModel
continuation_of kind successors named note = record {
  kind = kind;
  successor_outputs = successors;
  named_successor_outputs = named;
  note = note;
}

unfoldable pub named_or_unspecified : List NamedContinuationOutput → ContinuationModel
unfolding continuation_of extend
named_or_unspecified [] =
    continuation_of ContinuationKind.unspecified [] []
      "Source does not identify a successor state output; wallets and applications must not infer continuation."
named_or_unspecified (n ∷ ns) =
    continuation_of ContinuationKind.named_output (extend [] (map (λ o. o.output_index) (n ∷ ns)))
      (n ∷ ns)
      "Source names successor output(s), but does not bind ownership/script or covenant lineage."

-- The second test, on the outputs whose script is bound.
unfoldable pub script_or_named : List ℕ → List NamedContinuationOutput → ContinuationModel
unfolding continuation_of extend named_or_unspecified
script_or_named [] named = named_or_unspecified named
script_or_named (i ∷ is) named =
    continuation_of ContinuationKind.output_script_bound
      (extend (i ∷ is) (extend [] (map (λ o. o.output_index) named))) named
      "Source binds successor output ownership/script, but does not prove covenant lineage."

-- The first test, on the outputs whose covenant is bound.
unfoldable pub covenant_or : List ℕ → List ℕ → List NamedContinuationOutput → ContinuationModel
unfolding continuation_of extend script_or_named
covenant_or [] scripts named = script_or_named (extend [] scripts) named
covenant_or (i ∷ is) scripts named =
    continuation_of ContinuationKind.covenant_lineage_bound
      (extend (i ∷ is) (extend [] (map (λ o. o.output_index) named))) named
      "Source binds successor output covenant lineage."

unfoldable pub continuation_model :
    List OutputBinding → List NamedContinuationOutput → ContinuationModel
unfolding covenant_or extend bound_indexes is_covenant is_script
continuation_model bindings named =
    covenant_or (extend [] (bound_indexes is_covenant bindings)) (bound_indexes is_script bindings)
      named
