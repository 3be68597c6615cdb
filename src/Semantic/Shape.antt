-- ===== src/Semantic/Shape.antt =====
-- compiler/semantic/src/checker.rs: the transaction shape that a spend states, and its checks.
pub mod Indexes
pub mod Counts
use Prim.Native.String
use text.Mathlib.Text.{◌==◌ as str_eq}
use kaspa_script.Prelude.{
  ℕ, String, List, Option, none, some, ltb, leb, ◌==◌, ◌^◌, ◌-◌, if◌then◌else◌,
}
use kaspa_script.Syntax.Token.{Span}
use kaspa_script.Syntax.Ast.{Expr, Exprs, BinaryOp, nil, cons}
use kaspa_script.Semantic.Checker.{Check, ◌>>=◌, ◌>>◌, pure, skip, demand, insert_name}

pub record CountFacts : Type 0 where
  pub exact : Option (ℕ × Span)
  pub max_index : Option (ℕ × Span)

pub record ShapeFacts : Type 0 where
  pub inputs : CountFacts
  pub outputs : CountFacts

abbrev pub no_counts : CountFacts
no_counts = record { exact = none; max_index = none }

abbrev pub no_facts : ShapeFacts
no_facts = record { inputs = no_counts; outputs = no_counts }

pub data CountSubject : Type 0 where
  input output : CountSubject

unfoldable pub facts_of : CountSubject → ShapeFacts → CountFacts
facts_of input facts = facts.inputs
facts_of output facts = facts.outputs

unfoldable pub set_facts : CountSubject → CountFacts → ShapeFacts → ShapeFacts
set_facts input counts facts = record facts { inputs = counts }
set_facts output counts facts = record facts { outputs = counts }

unfoldable pub count_subject : Expr → Option CountSubject
count_subject (Expr.ident i) =
    if str_eq i.name "input_count"
    then some input
    else if str_eq i.name "output_count"
    then some output
    else none
count_subject _ = none

unfoldable pub literal : Expr → Option (ℕ × Span)
literal (Expr.integer value span) = some (value, span)
literal _ = none

-- The subject, its count and the count's place, if both are there.
unfoldable pub paired : Option CountSubject → Option (ℕ × Span) → Option (CountSubject × ℕ × Span)
paired (some s) (some (value, span)) = some (s, value, span)
paired _ _ = none

unfoldable pub or_else : {A : Type 0} → Option A → Option A → Option A
or_else (some a) o = some a
or_else none o = o

unfoldable pub exact_count_constraint : Expr → Option (CountSubject × ℕ × Span)
unfolding count_subject literal paired or_else
exact_count_constraint (Expr.binary left BinaryOp.equal right _) =
    or_else (paired (count_subject left) (literal right))
      (paired (count_subject right) (literal left))
exact_count_constraint _ = none

-- The count is kept, or compared with the one that is there.
unfoldable pub merge_exact : Option (ℕ × Span) → ℕ → Span → CountFacts → Check CountFacts
unfolding demand
merge_exact (some (existing, _)) value span counts = do
  demand (existing == value) span "conflicting exact transaction count constraints"
  pure counts
merge_exact none value span counts = pure (record counts { exact = some (value, span) })

unfoldable pub record_exact : Option (CountSubject × ℕ × Span) → ShapeFacts → Check ShapeFacts
unfolding merge_exact facts_of set_facts demand
record_exact none facts = pure facts
record_exact (some (subject, value, span)) facts = do
  demand (leb value (2 ^ 32 - 1)) span "exact transaction count exceeds u32 range"
  counts ← merge_exact (facts_of subject facts).exact value span (facts_of subject facts)
  pure (set_facts subject counts facts)

unfoldable pub collect_exact_counts_from_conjunction : Expr → ShapeFacts → Check ShapeFacts
unfolding record_exact exact_count_constraint
collect_exact_counts_from_conjunction (Expr.binary left BinaryOp.and right _) facts = do
  facts' ← collect_exact_counts_from_conjunction left facts
  collect_exact_counts_from_conjunction right facts'
collect_exact_counts_from_conjunction e facts = record_exact (exact_count_constraint e) facts

unfoldable pub larger : Option (ℕ × Span) → ℕ → Span → Option (ℕ × Span)
larger none value span = some (value, span)
larger (some (current, at)) value span =
    if leb value current then some (current, at) else some (value, span)

unfoldable pub note_index : CountSubject → Option (ℕ × Span) → ShapeFacts → ShapeFacts
unfolding larger facts_of set_facts
note_index subject none facts = facts
note_index subject (some (value, span)) facts =
    let counts = facts_of subject facts in
    set_facts subject (record counts { max_index = larger counts.max_index value span }) facts

unfoldable pub first_literal : Exprs → Option (ℕ × Span)
unfolding literal
first_literal nil = none
first_literal (cons e _) = literal e

-- The index of a call of `input` or `output`.
unfoldable pub note_call : Expr → Exprs → ShapeFacts → ShapeFacts
unfolding note_index first_literal
note_call (Expr.ident i) args facts =
    if str_eq i.name "input"
    then note_index input (first_literal args) facts
    else if str_eq i.name "output"
    then note_index output (first_literal args) facts
    else facts
note_call _ args facts = facts

unfoldable mutual
  unfolding note_call

  pub collect_index_references : Expr → ShapeFacts → ShapeFacts
  collect_index_references (Expr.array elements _) facts = collect_all_indexes elements facts
  collect_index_references (Expr.unary _ e _) facts = collect_index_references e facts
  collect_index_references (Expr.binary left _ right _) facts =
      collect_index_references right (collect_index_references left facts)
  collect_index_references (Expr.call callee args _) facts =
      collect_all_indexes args (collect_index_references callee (note_call callee args facts))
  collect_index_references (Expr.field object _ _) facts = collect_index_references object facts
  collect_index_references _ facts = facts

  pub collect_all_indexes : Exprs → ShapeFacts → ShapeFacts
  collect_all_indexes nil facts = facts
  collect_all_indexes (cons e es) facts = collect_all_indexes es (collect_index_references e facts)

unfoldable pub collect_shape_facts : Expr → ShapeFacts → Check ShapeFacts
unfolding collect_exact_counts_from_conjunction collect_index_references
collect_shape_facts e facts = do
  facts' ← collect_exact_counts_from_conjunction e facts
  pure (collect_index_references e facts')

unfoldable pub exceeds_index : Option (ℕ × Span) → Option (ℕ × Span) → String → Check (Unit {0})
unfolding demand
exceeds_index (some (exact, _)) (some (max_index, max_span)) label =
    demand (ltb max_index exact) max_span
      (String.◌++◌ "`" (String.◌++◌ label "` must exceed the highest referenced index"))
exceeds_index _ _ label = skip

unfoldable pub check_count_facts : String → CountFacts → Check (Unit {0})
unfolding exceeds_index
check_count_facts label facts = exceeds_index facts.exact facts.max_index label

unfoldable pub check_shape_facts : ShapeFacts → Check (Unit {0})
unfolding check_count_facts
check_shape_facts facts = do
  check_count_facts "input_count" facts.inputs
  check_count_facts "output_count" facts.outputs

-- The label of a call of `continuation`.
unfoldable pub first_text : Exprs → Option (String × Span)
first_text (cons (Expr.string value span) _) = some (value, span)
first_text _ = none

unfoldable pub continuation_name : Expr → Option (String × Span)
unfolding first_text
continuation_name (Expr.call (Expr.ident i) args _) =
    if str_eq i.name "continuation" then first_text args else none
continuation_name _ = none

unfoldable pub note_continuation : Option (String × Span) → List String → Check (List String)
unfolding demand insert_name
note_continuation none names = pure names
note_continuation (some (name, span)) names =
    let (fresh, names') = insert_name name names in
    (do
      demand fresh span (String.◌++◌ "duplicate continuation name `" (String.◌++◌ name "`"))
      pure names')

unfoldable mutual
  unfolding note_continuation continuation_name

  pub collect_continuation_names : Expr → List String → Check (List String)
  collect_continuation_names (Expr.array elements _) names =
      collect_all_continuations elements names
  collect_continuation_names (Expr.unary _ e _) names = collect_continuation_names e names
  collect_continuation_names (Expr.binary left _ right _) names = do
    names' ← collect_continuation_names left names
    collect_continuation_names right names'
  collect_continuation_names (Expr.call callee args span) names = do
    noted ← note_continuation (continuation_name (Expr.call callee args span)) names
    names' ← collect_continuation_names callee noted
    collect_all_continuations args names'
  collect_continuation_names (Expr.field object _ _) names = collect_continuation_names object names
  collect_continuation_names _ names = pure names

  pub collect_all_continuations : Exprs → List String → Check (List String)
  collect_all_continuations nil names = pure names
  collect_all_continuations (cons e es) names = do
    names' ← collect_continuation_names e names
    collect_all_continuations es names'
