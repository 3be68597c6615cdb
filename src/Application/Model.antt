-- ===== src/Application/Model.antt =====
-- compiler/model/src/lib.rs: the types of the application model. A list of expressions inside an
-- expression is `NormalizedExpressions`.
use text.Mathlib.Text.{◌==◌ as str_eq}
use kaspa_script.Prelude.{ℕ, String, Bool, List, [], ◌∷◌, Option, none, some, if◌then◌else◌}
use kaspa_script.Syntax.Token.{Span, TypeName}

pub data ExecutionModel : Type 0 where
  kaspa_utxo_state_machine : ExecutionModel

pub record Parameter : Type 0 where
  pub name : String
  pub ty : TypeName

pub data SigningScheme : Type 0 where
  single_signature multisig : SigningScheme

pub record SigningRequirement : Type 0 where
  pub scheme : SigningScheme
  pub threshold : ℕ
  pub authorized_keys : List String
  pub signature_arguments : List String

pub data ConstraintKind : Type 0 where
  authorization value script timelock hashlock covenant sequencing proof transaction_shape generic :
      ConstraintKind

pub data UnaryOperator : Type 0 where
  negation negate : UnaryOperator

pub data BinaryOperator : Type 0 where
  or and equal not_equal greater greater_equal less less_equal add sub mul div modulo :
      BinaryOperator

mutual
  pub data NormalizedExpression : Type 0 where
    symbol : String → NormalizedExpression
    integer : ℕ → NormalizedExpression
    string : String → NormalizedExpression
    bool : Bool → NormalizedExpression
    array : NormalizedExpressions → NormalizedExpression
    unary : UnaryOperator → NormalizedExpression → NormalizedExpression
    binary : BinaryOperator → NormalizedExpression → NormalizedExpression → NormalizedExpression
    call : String → NormalizedExpressions → NormalizedExpression
    field : NormalizedExpression → String → NormalizedExpression

  pub data NormalizedExpressions : Type 0 where
    nil : NormalizedExpressions
    cons : NormalizedExpression → NormalizedExpressions → NormalizedExpressions

pub record Constraint : Type 0 where
  pub kind : ConstraintKind
  pub expression : NormalizedExpression
  pub source_span : Span

pub record TransactionShape : Type 0 where
  pub referenced_inputs : List ℕ
  pub referenced_outputs : List ℕ
  pub exact_input_count : Option ℕ
  pub exact_output_count : Option ℕ
  pub additional_inputs_permitted : Bool
  pub additional_outputs_permitted : Bool

pub data MonetaryResponsibility : Type 0 where
  external_explicit : MonetaryResponsibility

pub record MonetaryPolicy : Type 0 where
  pub value_constraint_count : ℕ
  pub fee_handling : MonetaryResponsibility
  pub change_handling : MonetaryResponsibility
  pub compiler_injects_outputs : Bool
  pub compiler_injects_recipients : Bool

pub data OutputField : Type 0 where
  value script covenant_id : OutputField

pub record OutputBinding : Type 0 where
  pub output_index : ℕ
  pub field : OutputField
  pub relation : BinaryOperator
  pub expected : NormalizedExpression

pub data ContinuationKind : Type 0 where
  unspecified named_output output_script_bound covenant_lineage_bound : ContinuationKind

pub record NamedContinuationOutput : Type 0 where
  pub name : String
  pub output_index : ℕ

pub record ContinuationModel : Type 0 where
  pub kind : ContinuationKind
  pub successor_outputs : List ℕ
  pub named_successor_outputs : List NamedContinuationOutput
  pub note : String

pub record TransitionModel : Type 0 where
  pub name : String
  pub arguments : List Parameter
  pub signing_requirements : List SigningRequirement
  pub constraints : List Constraint
  pub transaction_shape : TransactionShape
  pub monetary_policy : MonetaryPolicy
  pub output_bindings : List OutputBinding
  pub continuation : ContinuationModel

pub record ContractModel : Type 0 where
  pub name : String
  pub state : List Parameter
  pub finality_depth : Option ℕ
  pub transitions : List TransitionModel

pub data AssuranceActor : Type 0 where
  compiler application wallet indexer node operator : AssuranceActor

pub record Assurance : Type 0 where
  pub id : String
  pub actor : AssuranceActor
  pub statement : String

pub record AssuranceProfile : Type 0 where
  pub compiler_guarantees : List Assurance
  pub external_obligations : List Assurance

pub record ApplicationModel : Type 0 where
  pub schema_version : String
  pub execution_model : ExecutionModel
  pub contracts : List ContractModel
  pub assurances : AssuranceProfile

unfoldable pub find_transition : String → List TransitionModel → Option TransitionModel
find_transition name [] = none
find_transition name (t ∷ ts) = if str_eq t.name name then some t else find_transition name ts

unfoldable pub find_contract : String → List ContractModel → Option ContractModel
find_contract name [] = none
find_contract name (c ∷ cs) = if str_eq c.name name then some c else find_contract name cs

-- `and_then` of the transition's search
unfoldable pub transition_of : Option ContractModel → String → Option TransitionModel
unfolding find_transition
transition_of none name = none
transition_of (some c) name = find_transition name c.transitions

-- `ApplicationModel::transition`
unfoldable pub transition : ApplicationModel → String → String → Option TransitionModel
unfolding find_contract transition_of
transition model contract name = transition_of (find_contract contract model.contracts) name
