-- ===== src/Application/Bounded.antt =====
-- compiler/ir/src/application.rs, compiler/semantic/src/checker.rs: in the model of a checked program,
-- the referenced indexes are below the exact counts.
use text.Mathlib.Text.{◌==◌ as str_eq}
use kaspa_script.Prelude.{
  ℕ, ◌<◌, ◌^◌, ◌≡◌, refl, String, Bool, true, false, List, [], ◌∷◌, ◌++◌, Option, none, some, All,
  All-append_parts, All-map, ltb, Bool-cases, inl, inr,
}
use kaspa_script.Prelude.Fault.{ok}
use kaspa_script.Syntax.Ast
use kaspa_script.Syntax.Ast.{Expr, Exprs, Stmt, let_stmt, require, return, Spend, Contract, Program}
use kaspa_script.Semantic.Shape
use kaspa_script.Semantic.Shape.Indexes
use kaspa_script.Semantic.Shape.Indexes.{call_indexes, indexes, all_indexes}
use kaspa_script.Semantic.InRange.{body_counts, body_indexes}
use kaspa_script.Semantic.SpendMet.{Ranged}
use kaspa_script.Semantic.Analyze.{Analysis, analyze_program}
use kaspa_script.Semantic.Accepted.{analyze_program-Ranged}
use kaspa_script.Application.Model.{TransactionShape}
use kaspa_script.Application.Normalize.{normalize_expression, normalize_all, expression_path}
use kaspa_script.Application.Shape.{
  try_u32, IndexSets, insert_reference, first_index, collect_transaction_indexes,
  collect_argument_indexes,
}
use kaspa_script.Application.Build.{
  constraints_of, referenced_indexes, no_indexes, no_exact, build_transition_model,
}
use kaspa_script.Application.Ordered.{insert_index-All}
use kaspa_script.Application.Letters.{letters, Quotes, IsCompound, expression_path-differs}
use kaspa_script.Application.Exact.{Meets, exact_transaction_counts-Meets}

module _ (R : Shape.CountSubject → ℕ → Type 0) (debug : String → String)
    (quotes : Quotes debug) where
  abbrev Holds : IndexSets → Type 0
  Holds sets = All (R Shape.input) sets.inputs × All (R Shape.output) sets.outputs

  -- `R` holds of the first argument, where a call by this name refers to a transaction.
  abbrev RefersTo : String → Option ℕ → Type 0
  RefersTo function none = Unit
  RefersTo function (some i) =
      (str_eq function "input" ≡ true → R Shape.input i)
      × (str_eq function "output" ≡ true → R Shape.output i)

  reference-Holds :
      (function : String) (o : Option ℕ) (sets : IndexSets)
      → RefersTo function o
      → Holds sets
      → Holds (insert_reference function o sets)
  unfolding insert_reference
  reference-Holds function none sets h k = k
  reference-Holds function (some i) sets (is_input, is_output) k =
      elim (Bool-cases (str_eq function "input")) [
        | inl here ↦
            rw here (insert_index-All (R Shape.input) i sets.inputs (is_input here) k.0, k.1)
        | inr other ↦ rw other (elim (Bool-cases (str_eq function "output")) [
          | inl here ↦
              rw here (k.0, insert_index-All (R Shape.output) i sets.outputs (is_output here) k.1)
          | inr neither ↦ rw neither k
        ])
      ]

  clash : {b : Bool} → b ≡ true → b ≡ false → ⊥
  clash h k = cc

  first-RefersTo :
      (args : Exprs) (function : String)
      → (str_eq function "input" ≡ true → All (R Shape.input) (Indexes.first_index args))
      → (str_eq function "output" ≡ true → All (R Shape.output) (Indexes.first_index args))
      → RefersTo function (first_index (normalize_all debug args))
  unfolding first_index normalize_all try_u32
  first-RefersTo (Ast.cons (Expr.integer n _) es) function h k =
      elim (Bool-cases (ltb n (2 ^ 32))) [
        | inl small ↦ rw small (λ e. (h e).0, λ e. (k e).0)
        | inr large ↦ rw large tt
      ]
  first-RefersTo _ function h k = tt

  compound-RefersTo :
      (callee : Expr) (o : Option ℕ) → IsCompound callee → RefersTo (expression_path debug callee) o
  unfolding letters
  compound-RefersTo callee none c = tt
  compound-RefersTo callee (some i) c = (
    λ e. absurd (clash e (expression_path-differs debug callee "input" quotes c refl refl refl)),
    λ e. absurd (clash e (expression_path-differs debug callee "output" quotes c refl refl refl)),
  )

  call-RefersTo :
      (callee : Expr) (args : Exprs)
      → ((s : Shape.CountSubject) → All (R s) (call_indexes s callee args))
      → RefersTo (expression_path debug callee) (first_index (normalize_all debug args))
  unfolding expression_path call_indexes
  call-RefersTo (Expr.ident i) args h =
      first-RefersTo args i.name (λ e. rw e at (h Shape.input)) (λ e. rw e at (h Shape.output))
  call-RefersTo (Expr.integer n s) args h = compound-RefersTo (Expr.integer n s) _ tt
  call-RefersTo (Expr.string t s) args h = compound-RefersTo (Expr.string t s) _ tt
  call-RefersTo (Expr.bool b s) args h = compound-RefersTo (Expr.bool b s) _ tt
  call-RefersTo (Expr.array es s) args h = compound-RefersTo (Expr.array es s) _ tt
  call-RefersTo (Expr.unary op e s) args h = compound-RefersTo (Expr.unary op e s) _ tt
  call-RefersTo (Expr.binary l op r s) args h = compound-RefersTo (Expr.binary l op r s) _ tt
  call-RefersTo (Expr.call e es s) args h = compound-RefersTo (Expr.call e es s) _ tt
  call-RefersTo (Expr.field o f s) args h = compound-RefersTo (Expr.field o f s) _ tt

abbrev EachIn : (Shape.CountSubject → ℕ → Type 0) → (Shape.CountSubject → List ℕ) → Type 0
EachIn R is = (s : Shape.CountSubject) → All (R s) (is s)

parts :
    (R : Shape.CountSubject → ℕ → Type 0) (xs ys : Shape.CountSubject → List ℕ)
    → EachIn R (λ s. xs s ++ ys s)
    → EachIn R xs × EachIn R ys
parts R xs ys h = (
  λ s. (All-append_parts (R s) (xs s) (ys s) (h s)).0,
  λ s. (All-append_parts (R s) (xs s) (ys s) (h s)).1,
)

mutual
  unfolding collect_transaction_indexes normalize_expression indexes

  collect-Holds :
      (R : Shape.CountSubject → ℕ → Type 0) (debug : String → String) (quotes : Quotes debug)
      (e : Expr) (sets : IndexSets)
      → EachIn R (λ s. indexes s e)
      → Holds R debug quotes sets
      → Holds R debug quotes (collect_transaction_indexes (normalize_expression debug e) sets)
  collect-Holds R debug q (Expr.array es _) sets h k = collect_all-Holds R debug q es sets h k
  collect-Holds R debug q (Expr.unary _ e _) sets h k = collect-Holds R debug q e sets h k
  collect-Holds R debug q (Expr.binary l op r _) sets h k =
      let (hl, hr) = parts R (λ s. indexes s l) (λ s. indexes s r) h in
      collect-Holds R debug q r _ hr (collect-Holds R debug q l sets hl k)
  collect-Holds R debug q (Expr.call callee args _) sets h k =
      let (own, rest) =
        parts R (λ s. call_indexes s callee args) (λ s. indexes s callee ++ all_indexes s args) h in
      let (_, inside) = parts R (λ s. indexes s callee) (λ s. all_indexes s args) rest in
      collect_all-Holds R debug q args _ inside (
        reference-Holds R debug q (expression_path debug callee) _ sets
          (call-RefersTo R debug q callee args own) k)
  collect-Holds R debug q (Expr.field o _ _) sets h k = collect-Holds R debug q o sets h k
  collect-Holds R debug q _ sets h k = k

  collect_all-Holds :
      (R : Shape.CountSubject → ℕ → Type 0) (debug : String → String) (quotes : Quotes debug)
      (es : Exprs) (sets : IndexSets)
      → EachIn R (λ s. all_indexes s es)
      → Holds R debug quotes sets
      → Holds R debug quotes (collect_argument_indexes (normalize_all debug es) sets)
  collect_all-Holds R debug q Ast.nil sets h k = k
  collect_all-Holds R debug q (Ast.cons e es) sets h k =
      let (he, hes) = parts R (λ s. indexes s e) (λ s. all_indexes s es) h in
      collect_all-Holds R debug q es _ hes (collect-Holds R debug q e sets he k)

referenced-Holds :
    (R : Shape.CountSubject → ℕ → Type 0) (debug : String → String) (quotes : Quotes debug)
    (ss : List Stmt) (sets : IndexSets)
    → EachIn R (λ s. body_indexes s ss)
    → Holds R debug quotes sets
    → Holds R debug quotes (referenced_indexes (constraints_of debug ss) sets)
unfolding referenced_indexes constraints_of body_indexes
referenced-Holds R debug q [] sets h k = k
referenced-Holds R debug q (require e _ ∷ ss) sets h k =
    let (he, hss) = parts R (λ s. indexes s e) (λ s. body_indexes s ss) h in
    referenced-Holds R debug q ss _ hss (collect-Holds R debug q e sets he k)
referenced-Holds R debug q (let_stmt _ _ _ ∷ ss) sets h k = referenced-Holds R debug q ss sets h k
referenced-Holds R debug q (return _ _ ∷ ss) sets h k = referenced-Holds R debug q ss sets h k

All-All : {A : Type 0} {P : A → Type 0} (xs : List A) → ((a : A) → P a) → All P xs
All-All [] f = tt
All-All (x ∷ xs) f = (f x, All-All xs f)

All-pair :
    {A : Type 0} (P Q : A → Type 0) (xs : List A) → All P xs → All Q xs → All (λ a. P a × Q a) xs
All-pair P Q [] h k = tt
All-pair P Q (x ∷ xs) h k = ((h.0, k.0), All-pair P Q xs h.1 k.1)

All-swap :
    (F : ℕ → ℕ → Type 0) (xs ys : List ℕ)
    → All (λ x. All (λ y. F x y) ys) xs
    → All (λ y. All (λ x. F x y) xs) ys
All-swap F [] ys h = All-All ys (λ y. tt)
All-swap F (x ∷ xs) ys h =
    All-pair (λ y. F x y) (λ y. All (λ z. F z y) xs) ys h.0 (All-swap F xs ys h.1)

-- The referenced indexes are below the exact count, where there is one.
abbrev pub Within : Option ℕ → List ℕ → Type 0
Within exact is = Meets (λ n. All (λ i. i < n) is) exact

abbrev pub WithinBoth : TransactionShape → Type 0
WithinBoth shape =
    Within shape.exact_input_count shape.referenced_inputs
    × Within shape.exact_output_count shape.referenced_outputs

by_subject :
    (P : Shape.CountSubject → Type 0)
    → P Shape.input
    → P Shape.output
    → (s : Shape.CountSubject) → P s
by_subject P h k Shape.input = h
by_subject P h k Shape.output = k

abbrev of_subject : IndexSets → Shape.CountSubject → List ℕ
of_subject sets Shape.input = sets.inputs
of_subject sets Shape.output = sets.outputs

spend-Within :
    (debug : String → String) (s : Spend)
    → Quotes debug
    → Ranged s
    → WithinBoth (build_transition_model debug s).transaction_shape
unfolding build_transition_model
spend-Within debug s quotes (inputs, outputs) =
    let below : Shape.CountSubject → ℕ → Type 0 = λ t i. All (λ n. i < n) (body_counts t s.body) in
    let each : EachIn below (λ t. body_indexes t s.body) =
      by_subject _ (All-swap (λ n i. i < n) (body_counts Shape.input s.body) _ inputs)
        (All-swap (λ n i. i < n) (body_counts Shape.output s.body) _ outputs) in
    let held = referenced-Holds below debug quotes s.body no_indexes each (tt, tt) in
    let sets = referenced_indexes (constraints_of debug s.body) no_indexes in
    exact_transaction_counts-Meets (λ t n. All (λ i. i < n) (of_subject sets t)) s.body no_exact
      (by_subject _ (All-swap (λ i n. i < n) sets.inputs _ held.0)
        (All-swap (λ i n. i < n) sets.outputs _ held.1))
      (tt, tt)

-- Where the checker accepts a program, and the text that the standard library writes for a string is not
-- made of lowercase letters alone, the model of each spend has each referenced input below the
-- exact input count, if it has one, and each referenced output below the exact output count.
pub build_transition_model-Within :
    (debug : String → String) (p : Program) (source file : String) {a : Analysis}
    → Quotes debug
    → analyze_program p source file ≡ ok a
    → All
        (λ c. All (λ s. WithinBoth (build_transition_model debug s).transaction_shape) c.spends)
        p.contracts
build_transition_model-Within debug p source file quotes h =
    All-map (λ c ranged. All-map (λ s r. spend-Within debug s quotes r) c.spends ranged) p.contracts
      (analyze_program-Ranged p source file h)
