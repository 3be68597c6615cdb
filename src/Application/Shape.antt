-- ===== src/Application/Shape.antt =====
-- compiler/ir/src/application.rs: the transaction that a spend speaks of: indexes, exact counts, bound
-- fields of outputs, and successors. A `BTreeSet` of indexes is the ascending list of its elements.
use text.Mathlib.Text.{◌==◌ as str_eq}
use kaspa_script.Prelude.{
  ℕ, ◌^◌, String, List, [], ◌∷◌, Option, none, some, ltb, ◌==◌, if◌then◌else◌,
}
use kaspa_script.Syntax.Ast
use kaspa_script.Syntax.Ast.{Expr, Exprs, BinaryOp, Stmt, require, first, second, count}
use kaspa_script.Application.Model.{
  BinaryOperator, NormalizedExpression, NormalizedExpressions, OutputField, OutputBinding, nil,
  cons,
}
use kaspa_script.Application.Normalize.{normalize_expression, normalize_binary_operator}

-- `BTreeSet::insert`
unfoldable pub insert_index : ℕ → List ℕ → List ℕ
insert_index i [] = i ∷ []
insert_index i (x ∷ xs) =
    let after = x ∷ insert_index i xs in
    if ltb i x then i ∷ x ∷ xs else if i == x then x ∷ xs else after

-- `extend` of a set
unfoldable pub extend : List ℕ → List ℕ → List ℕ
unfolding insert_index
extend set [] = set
extend set (i ∷ is) = extend (insert_index i set) is

-- `u32::try_from(value).ok()`
unfoldable pub try_u32 : ℕ → Option ℕ
try_u32 value = if ltb value (2 ^ 32) then some value else none

-- The input and output indexes.
pub record IndexSets : Type 0 where
  pub inputs : List ℕ
  pub outputs : List ℕ

unfoldable pub insert_reference : String → Option ℕ → IndexSets → IndexSets
unfolding insert_index
insert_reference function none sets = sets
insert_reference function (some i) sets =
    if str_eq function "input"
    then record sets { inputs = insert_index i sets.inputs }
    else if str_eq function "output"
    then record sets { outputs = insert_index i sets.outputs }
    else sets

-- The first argument, where it is a literal index.
unfoldable pub first_index : NormalizedExpressions → Option ℕ
unfolding try_u32
first_index (cons (NormalizedExpression.integer value) _) = try_u32 value
first_index _ = none

unfoldable mutual
  unfolding insert_reference first_index

  pub collect_transaction_indexes : NormalizedExpression → IndexSets → IndexSets
  collect_transaction_indexes (NormalizedExpression.call function arguments) sets =
      collect_argument_indexes arguments (insert_reference function (first_index arguments) sets)
  collect_transaction_indexes (NormalizedExpression.array elements) sets =
      collect_argument_indexes elements sets
  collect_transaction_indexes (NormalizedExpression.unary _ operand) sets =
      collect_transaction_indexes operand sets
  collect_transaction_indexes (NormalizedExpression.binary _ left right) sets =
      collect_transaction_indexes right (collect_transaction_indexes left sets)
  collect_transaction_indexes (NormalizedExpression.field object _) sets =
      collect_transaction_indexes object sets
  collect_transaction_indexes _ sets = sets

  pub collect_argument_indexes : NormalizedExpressions → IndexSets → IndexSets
  collect_argument_indexes nil sets = sets
  collect_argument_indexes (cons e es) sets =
      collect_argument_indexes es (collect_transaction_indexes e sets)

-- `output(i)`, with one argument, which is a literal index.
unfoldable pub single_index : Exprs → Option ℕ
unfolding try_u32
single_index (Ast.cons (Expr.integer value _) Ast.nil) = try_u32 value
single_index _ = none

unfoldable pub output_call_index : Expr → Option ℕ
unfolding single_index
output_call_index (Expr.call (Expr.ident root) args _) =
    if str_eq root.name "output" then single_index args else none
output_call_index _ = none

unfoldable pub field_named : String → Option OutputField
field_named name =
    if str_eq name "value"
    then some OutputField.value
    else if str_eq name "script"
    then some OutputField.script
    else if str_eq name "covenant_id"
    then some OutputField.covenant_id
    else none

unfoldable pub both : {A B : Type 0} → Option A → Option B → Option (A × B)
both (some a) (some b) = some (a, b)
both _ _ = none

unfoldable pub output_field : Expr → Option (ℕ × OutputField)
unfolding output_call_index field_named both
output_field (Expr.field object f _) = both (output_call_index object) (field_named f.name)
output_field _ = none

unfoldable pub reverse_relation : BinaryOperator → BinaryOperator
reverse_relation BinaryOperator.greater = BinaryOperator.less
reverse_relation BinaryOperator.greater_equal = BinaryOperator.less_equal
reverse_relation BinaryOperator.less = BinaryOperator.greater
reverse_relation BinaryOperator.less_equal = BinaryOperator.greater_equal
reverse_relation other = other

-- The binding of the field on the left, else of the one on the right, turned around.
unfoldable pub binding_of :
    Option (ℕ × OutputField)
    → Option (ℕ × OutputField)
    → BinaryOperator
    → NormalizedExpression
    → NormalizedExpression
    → Option OutputBinding
unfolding reverse_relation
binding_of (some (i, f)) _ relation left right =
    some record { output_index = i; field = f; relation = relation; expected = right }
binding_of none (some (i, f)) relation left right =
    some
      record { output_index = i; field = f; relation = reverse_relation relation; expected = left }
binding_of none none relation left right = none

unfoldable pub output_binding : (String → String) → Expr → Option OutputBinding
unfolding binding_of output_field normalize_expression normalize_binary_operator
output_binding debug (Expr.binary left op right _) =
    binding_of (output_field left) (output_field right) (normalize_binary_operator op)
      (normalize_expression debug left) (normalize_expression debug right)
output_binding debug _ = none

pub data CountSubject : Type 0 where
  input output : CountSubject

unfoldable pub count_subject : Expr → Option CountSubject
count_subject (Expr.ident i) =
    if str_eq i.name "input_count"
    then some input
    else if str_eq i.name "output_count"
    then some output
    else none
count_subject _ = none

unfoldable pub integer_of : Expr → Option ℕ
integer_of (Expr.integer value _) = some value
integer_of _ = none

unfoldable pub subject_count : CountSubject → ℕ → Option (CountSubject × ℕ)
unfolding try_u32 both
subject_count subject value = both (some subject) (try_u32 value)

-- The two `if let` tests; the first that matches decides, even where its count is too large.
unfoldable pub exact_of :
    Option CountSubject → Option ℕ → Option ℕ → Option CountSubject → Option (CountSubject × ℕ)
unfolding subject_count
exact_of (some subject) (some value) _ _ = subject_count subject value
exact_of _ _ (some value) (some subject) = subject_count subject value
exact_of _ _ _ _ = none

unfoldable pub exact_count_constraint : Expr → Option (CountSubject × ℕ)
unfolding exact_of count_subject integer_of
exact_count_constraint (Expr.binary left BinaryOp.equal right _) =
    exact_of (count_subject left) (integer_of right) (integer_of left) (count_subject right)
exact_count_constraint _ = none

-- The exact input and output counts.
pub record ExactCounts : Type 0 where
  pub input_count : Option ℕ
  pub output_count : Option ℕ

unfoldable pub set_count : Option (CountSubject × ℕ) → ExactCounts → ExactCounts
set_count none counts = counts
set_count (some (input, n)) counts = record counts { input_count = some n }
set_count (some (output, n)) counts = record counts { output_count = some n }

unfoldable pub collect_exact_transaction_counts : Expr → ExactCounts → ExactCounts
unfolding set_count exact_count_constraint
collect_exact_transaction_counts (Expr.binary left BinaryOp.and right _) counts =
    collect_exact_transaction_counts right (collect_exact_transaction_counts left counts)
collect_exact_transaction_counts e counts = set_count (exact_count_constraint e) counts

unfoldable pub exact_transaction_counts : List Stmt → ExactCounts → ExactCounts
unfolding collect_exact_transaction_counts
exact_transaction_counts [] counts = counts
exact_transaction_counts (require e _ ∷ ss) counts =
    exact_transaction_counts ss (collect_exact_transaction_counts e counts)
exact_transaction_counts (_ ∷ ss) counts = exact_transaction_counts ss counts
