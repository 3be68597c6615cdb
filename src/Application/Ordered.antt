-- ===== src/Application/Ordered.antt =====
-- compiler/ir/src/application.rs: the index lists of a transition's model ascend.
use kaspa_script.Prelude.{
  ℕ, ◌<◌, ◌≡◌, String, Bool, true, false, List, [], ◌∷◌, Option, none, some, All, map, ltb, ltb→lt,
  ◌==◌, Bool-cases, inl, inr, arith, if◌then◌else◌,
}
use text.Mathlib.Text.{◌==◌ as str_eq}
use kaspa_script.Syntax.Ast.{Spend}
use kaspa_script.Semantic.Kips.Sorted.{Ascending, above_trans}
use kaspa_script.Application.Model.{
  NormalizedExpression, NormalizedExpressions, nil, cons, Constraint, NamedContinuationOutput,
}
use kaspa_script.Application.Shape.{
  insert_index, extend, IndexSets, insert_reference, first_index, collect_transaction_indexes,
  collect_argument_indexes,
}
use kaspa_script.Application.Successors.{
  bound_indexes, is_covenant, is_script, continuation_of, named_or_unspecified, script_or_named,
  covenant_or, continuation_model, named_successor_outputs,
}
use kaspa_script.Application.Build.{
  referenced_indexes, build_transition_model, no_indexes, constraints_of, bindings_of,
}

pub insert_index-All :
    (P : ℕ → Type 0) (i : ℕ) (xs : List ℕ) → P i → All P xs → All P (insert_index i xs)
unfolding insert_index
insert_index-All P i [] h k = (h, tt)
insert_index-All P i (x ∷ xs) h (p, ps) = elim (Bool-cases (ltb i x)) [
  | inl low ↦ rw low (h, (p, ps))
  | inr high ↦ rw high (elim (Bool-cases (i == x)) [
    | inl same ↦ rw same (p, ps)
    | inr other ↦ rw other (p, insert_index-All P i xs h ps)
  ])
]

differ_lt : (i x : ℕ) → ltb i x ≡ false → (i == x) ≡ false → x < i
differ_lt i x h k = ground arith

insert_index-Ascending : (i : ℕ) (xs : List ℕ) → Ascending xs → Ascending (insert_index i xs)
unfolding insert_index
insert_index-Ascending i [] h = (tt, tt)
insert_index-Ascending i (x ∷ xs) (above, h) = elim (Bool-cases (ltb i x)) [
  | inl low ↦
      rw low (let first = ltb→lt i x low in ((first, above_trans i x xs first above), (above, h)))
  | inr high ↦ rw high (elim (Bool-cases (i == x)) [
    | inl same ↦ rw same (above, h)
    | inr other ↦ rw other (
      insert_index-All (λ j. x < j) i xs (differ_lt i x high other) above,
      insert_index-Ascending i xs h,
    )
  ])
]

extend-Ascending : (set is : List ℕ) → Ascending set → Ascending (extend set is)
unfolding extend
extend-Ascending set [] h = h
extend-Ascending set (i ∷ is) h =
    extend-Ascending (insert_index i set) is (insert_index-Ascending i set h)

abbrev BothAscend : IndexSets → Type 0
BothAscend sets = Ascending sets.inputs × Ascending sets.outputs

reference-Ascend :
    (is_input is_output : Bool) (i : ℕ) (sets : IndexSets)
    → BothAscend sets
    → BothAscend (
        if is_input
        then record sets { inputs = insert_index i sets.inputs }
        else if is_output
        then record sets { outputs = insert_index i sets.outputs }
        else sets)
reference-Ascend true is_output i sets h = (insert_index-Ascending i sets.inputs h.0, h.1)
reference-Ascend false true i sets h = (h.0, insert_index-Ascending i sets.outputs h.1)
reference-Ascend false false i sets h = h

insert_reference-Ascend :
    (function : String) (o : Option ℕ) (sets : IndexSets)
    → BothAscend sets
    → BothAscend (insert_reference function o sets)
unfolding insert_reference
insert_reference-Ascend function none sets h = h
insert_reference-Ascend function (some i) sets h =
    reference-Ascend (str_eq function "input") (str_eq function "output") i sets h

mutual
  unfolding collect_transaction_indexes

  collect-Ascend :
      (e : NormalizedExpression) (sets : IndexSets)
      → BothAscend sets
      → BothAscend (collect_transaction_indexes e sets)
  collect-Ascend (NormalizedExpression.call function es) sets h =
      collect_all-Ascend es (insert_reference function (first_index es) sets)
        (insert_reference-Ascend function (first_index es) sets h)
  collect-Ascend (NormalizedExpression.array es) sets h = collect_all-Ascend es sets h
  collect-Ascend (NormalizedExpression.unary _ e) sets h = collect-Ascend e sets h
  collect-Ascend (NormalizedExpression.binary _ l r) sets h =
      collect-Ascend r (collect_transaction_indexes l sets) (collect-Ascend l sets h)
  collect-Ascend (NormalizedExpression.field o _) sets h = collect-Ascend o sets h
  collect-Ascend (NormalizedExpression.symbol _) sets h = h
  collect-Ascend (NormalizedExpression.integer _) sets h = h
  collect-Ascend (NormalizedExpression.string _) sets h = h
  collect-Ascend (NormalizedExpression.bool _) sets h = h

  collect_all-Ascend :
      (es : NormalizedExpressions) (sets : IndexSets)
      → BothAscend sets
      → BothAscend (collect_argument_indexes es sets)
  collect_all-Ascend nil sets h = h
  collect_all-Ascend (cons e es) sets h =
      collect_all-Ascend es (collect_transaction_indexes e sets) (collect-Ascend e sets h)

referenced-Ascend :
    (cs : List Constraint) (sets : IndexSets)
    → BothAscend sets
    → BothAscend (referenced_indexes cs sets)
unfolding referenced_indexes
referenced-Ascend [] sets h = h
referenced-Ascend (c ∷ cs) sets h =
    referenced-Ascend cs (collect_transaction_indexes c.expression sets)
      (collect-Ascend c.expression sets h)

named_or_unspecified-Ascending :
    (named : List NamedContinuationOutput)
    → Ascending (named_or_unspecified named).successor_outputs
unfolding named_or_unspecified continuation_of
named_or_unspecified-Ascending [] = tt
named_or_unspecified-Ascending (n ∷ ns) =
    extend-Ascending [] (map (λ o. o.output_index) (n ∷ ns)) tt

script_or_named-Ascending :
    (scripts : List ℕ) (named : List NamedContinuationOutput)
    → Ascending scripts
    → Ascending (script_or_named scripts named).successor_outputs
unfolding script_or_named continuation_of
script_or_named-Ascending [] named h = named_or_unspecified-Ascending named
script_or_named-Ascending (i ∷ is) named h =
    extend-Ascending (i ∷ is) (extend [] (map (λ o. o.output_index) named)) h

covenant_or-Ascending :
    (covenants scripts : List ℕ) (named : List NamedContinuationOutput)
    → Ascending covenants
    → Ascending (covenant_or covenants scripts named).successor_outputs
unfolding covenant_or continuation_of
covenant_or-Ascending [] scripts named h =
    script_or_named-Ascending (extend [] scripts) named (extend-Ascending [] scripts tt)
covenant_or-Ascending (i ∷ is) scripts named h =
    extend-Ascending (i ∷ is) (extend [] (map (λ o. o.output_index) named)) h

-- In the model of a spend, the referenced inputs, the referenced outputs and the successor outputs
-- ascend, so that no index is there twice.
pub build_transition_model-Ascending :
    (debug : String → String) (spend : Spend)
    → Ascending (build_transition_model debug spend).transaction_shape.referenced_inputs
      × Ascending (build_transition_model debug spend).transaction_shape.referenced_outputs
      × Ascending (build_transition_model debug spend).continuation.successor_outputs
unfolding build_transition_model continuation_model
build_transition_model-Ascending debug spend =
    let both = referenced-Ascend (constraints_of debug spend.body) no_indexes (tt, tt) in
    let bindings = bindings_of debug spend.body in
    (
      both.0,
      both.1,
      covenant_or-Ascending (extend [] (bound_indexes is_covenant bindings))
          (bound_indexes is_script bindings) (named_successor_outputs spend.body)
          (extend-Ascending [] (bound_indexes is_covenant bindings) tt),
    )
