-- ===== src/Semantic/Shape/Indexes.antt =====
-- compiler/semantic/src/checker.rs: the highest index that is collected is above every index there is.
use text.Mathlib.Text.{◌==◌ as str_eq}
use text.Mathlib.TextEquality.{eq_iff}
use kaspa_script.Prelude.{
  ℕ, ◌≤◌, ◌≡◌, refl, ◌∙◌, Bool, true, false, List, [], ◌∷◌, ◌++◌, Option, none, some, All,
  All-append, All-map, leb, leb→le, leb-false, Bool-cases, inl, inr, arith, if◌then◌else◌,
}
use kaspa_script.Syntax.Token.{Span}
use kaspa_script.Syntax.Ast.{Expr, Exprs, nil, cons}
use kaspa_script.Semantic.Shape.{
  ShapeFacts, CountSubject, input, output, facts_of, set_facts, larger, note_index, first_literal,
  literal, note_call, collect_index_references, collect_all_indexes,
}

-- An index that the recorded one bounds.
abbrev pub Under : Option (ℕ × Span) → ℕ → Type 0
Under none i = ⊥
Under (some (m, _)) i = i ≤ m

abbrev pub Bounds : CountSubject → ShapeFacts → ℕ → Type 0
Bounds s facts = Under (facts_of s facts).max_index

-- The literal indexes of the calls of `input`, or of `output`, in an expression.
abbrev pub first_index : Exprs → List ℕ
first_index (cons (Expr.integer n _) _) = n ∷ []
first_index _ = []

unfoldable pub call_indexes : CountSubject → Expr → Exprs → List ℕ
call_indexes input (Expr.ident i) args = if str_eq i.name "input" then first_index args else []
call_indexes output (Expr.ident i) args = if str_eq i.name "output" then first_index args else []
call_indexes _ _ _ = []

unfoldable mutual
  unfolding call_indexes

  pub indexes : CountSubject → Expr → List ℕ
  indexes s (Expr.array es _) = all_indexes s es
  indexes s (Expr.unary _ e _) = indexes s e
  indexes s (Expr.binary l _ r _) = indexes s l ++ indexes s r
  indexes s (Expr.call callee args _) =
      call_indexes s callee args ++ (indexes s callee ++ all_indexes s args)
  indexes s (Expr.field o _ _) = indexes s o
  indexes s _ = []

  pub all_indexes : CountSubject → Exprs → List ℕ
  all_indexes s nil = []
  all_indexes s (cons e es) = indexes s e ++ all_indexes s es

larger-Under :
    (o : Option (ℕ × Span)) (v : ℕ) (span : Span) (i : ℕ) → Under o i → Under (larger o v span) i
unfolding larger
larger-Under none v span i h = absurd h
larger-Under (some (m, at)) v span i h = elim (Bool-cases (leb v m)) [
  | inl low ↦ rw low h
  | inr high ↦ rw high (omega (arith, leb-false v m high))
]

larger-new : (o : Option (ℕ × Span)) (v : ℕ) (span : Span) → Under (larger o v span) v
unfolding larger
larger-new none v span = omega arith
larger-new (some (m, at)) v span = elim (Bool-cases (leb v m)) [
  | inl low ↦ rw low (leb→le v m low)
  | inr high ↦ rw high (omega arith)
]

-- What an update of the facts keeps: the bounds, and the exact counts.
abbrev pub Keeps : (ShapeFacts → ShapeFacts) → Type 0
Keeps f =
    (s : CountSubject) (facts : ShapeFacts)
    → ((i : ℕ) → Bounds s facts i → Bounds s (f facts) i)
      × ((facts_of s (f facts)).exact ≡ (facts_of s facts).exact)

Keeps-id : Keeps (λ facts. facts)
Keeps-id s facts = (λ i h. h, refl)

Keeps-then : (f g : ShapeFacts → ShapeFacts) → Keeps f → Keeps g → Keeps (λ facts. g (f facts))
Keeps-then f g p q s facts =
    (λ i h. (q s (f facts)).0 i ((p s facts).0 i h), (q s (f facts)).1 ∙ (p s facts).1)

Keeps-if :
    (b : Bool) (f g : ShapeFacts → ShapeFacts)
    → Keeps f
    → Keeps g
    → Keeps (λ facts. if b then f facts else g facts)
Keeps-if true f g p q = p
Keeps-if false f g p q = q

note_index-Keeps : (t : CountSubject) (o : Option (ℕ × Span)) → Keeps (note_index t o)
unfolding note_index facts_of set_facts
note_index-Keeps t none s facts = (λ i h. h, refl)
note_index-Keeps input (some (v, span)) input facts =
    (larger-Under facts.inputs.max_index v span, refl)
note_index-Keeps input (some (v, span)) output facts = (λ i h. h, refl)
note_index-Keeps output (some (v, span)) input facts = (λ i h. h, refl)
note_index-Keeps output (some (v, span)) output facts =
    (larger-Under facts.outputs.max_index v span, refl)

note_call-Keeps : (callee : Expr) (args : Exprs) → Keeps (note_call callee args)
unfolding note_call
note_call-Keeps (Expr.ident i) args =
    Keeps-if (str_eq i.name "input") (note_index input (first_literal args))
      (λ facts.
        if str_eq i.name "output" then note_index output (first_literal args) facts else facts)
      (note_index-Keeps input (first_literal args))
      (Keeps-if (str_eq i.name "output") (note_index output (first_literal args)) (λ facts. facts)
        (note_index-Keeps output (first_literal args)) Keeps-id)
note_call-Keeps _ args = Keeps-id

mutual
  unfolding collect_index_references

  pub collect_index_references-Keeps : (e : Expr) → Keeps (collect_index_references e)
  collect_index_references-Keeps (Expr.array es _) = collect_all_indexes-Keeps es
  collect_index_references-Keeps (Expr.unary _ e _) = collect_index_references-Keeps e
  collect_index_references-Keeps (Expr.binary l _ r _) =
      Keeps-then (collect_index_references l) (collect_index_references r)
        (collect_index_references-Keeps l) (collect_index_references-Keeps r)
  collect_index_references-Keeps (Expr.call callee args _) =
      Keeps-then (λ facts. collect_index_references callee (note_call callee args facts))
        (collect_all_indexes args)
        (Keeps-then (note_call callee args) (collect_index_references callee)
          (note_call-Keeps callee args) (collect_index_references-Keeps callee))
        (collect_all_indexes-Keeps args)
  collect_index_references-Keeps (Expr.field o _ _) = collect_index_references-Keeps o
  collect_index_references-Keeps (Expr.ident _) = Keeps-id
  collect_index_references-Keeps (Expr.integer _ _) = Keeps-id
  collect_index_references-Keeps (Expr.string _ _) = Keeps-id
  collect_index_references-Keeps (Expr.bool _ _) = Keeps-id

  collect_all_indexes-Keeps : (es : Exprs) → Keeps (collect_all_indexes es)
  collect_all_indexes-Keeps nil = Keeps-id
  collect_all_indexes-Keeps (cons e es) =
      Keeps-then (collect_index_references e) (collect_all_indexes es)
        (collect_index_references-Keeps e) (collect_all_indexes-Keeps es)

note_index-new :
    (s : CountSubject) (args : Exprs) (facts : ShapeFacts)
    → All (Bounds s (note_index s (first_literal args) facts)) (first_index args)
unfolding note_index facts_of set_facts first_literal literal
note_index-new input (cons (Expr.integer n span) _) facts =
    (larger-new facts.inputs.max_index n span, tt)
note_index-new output (cons (Expr.integer n span) _) facts =
    (larger-new facts.outputs.max_index n span, tt)
note_index-new s _ facts = tt

note_call-new :
    (s : CountSubject) (callee : Expr) (args : Exprs) (facts : ShapeFacts)
    → All (Bounds s (note_call callee args facts)) (call_indexes s callee args)
unfolding note_call call_indexes
note_call-new input (Expr.ident i) args facts = elim (Bool-cases (str_eq i.name "input")) [
  | inl same ↦ rw same (note_index-new input args facts)
  | inr other ↦ rw other tt
]
note_call-new output (Expr.ident i) args facts = elim (Bool-cases (str_eq i.name "output")) [
  | inl same ↦ rw ((eq_iff i.name "output").0 same) (note_index-new output args facts)
  | inr other ↦ rw other tt
]
note_call-new s _ args facts = tt

carried :
    (f : ShapeFacts → ShapeFacts)
    → Keeps f
    → (s : CountSubject) (facts : ShapeFacts) (is : List ℕ) → All (Bounds s facts) is
    → All (Bounds s (f facts)) is
carried f k s facts is h = All-map (k s facts).0 is h

mutual
  unfolding collect_index_references indexes

  indexes-found :
      (s : CountSubject) (e : Expr) (facts : ShapeFacts)
      → All (Bounds s (collect_index_references e facts)) (indexes s e)
  indexes-found s (Expr.array es _) facts = all_indexes-found s es facts
  indexes-found s (Expr.unary _ e _) facts = indexes-found s e facts
  indexes-found s (Expr.binary l _ r _) facts =
      let facts' = collect_index_references l facts in
      All-append _ (indexes s l) (indexes s r)
        (carried (collect_index_references r) (collect_index_references-Keeps r) s facts'
          (indexes s l) (indexes-found s l facts))
        (indexes-found s r facts')
  indexes-found s (Expr.call callee args _) facts =
      let noted = note_call callee args facts in
      let found = collect_index_references callee noted in
      let late = carried (collect_all_indexes args) (collect_all_indexes-Keeps args) s found in
      let own =
        carried (collect_index_references callee) (collect_index_references-Keeps callee) s noted _
          (note_call-new s callee args facts) in
      All-append _ (call_indexes s callee args) _ (late _ own) (
        All-append _ (indexes s callee) (all_indexes s args) (late _ (indexes-found s callee noted))
          (all_indexes-found s args found))
  indexes-found s (Expr.field o _ _) facts = indexes-found s o facts
  indexes-found s (Expr.ident _) facts = tt
  indexes-found s (Expr.integer _ _) facts = tt
  indexes-found s (Expr.string _ _) facts = tt
  indexes-found s (Expr.bool _ _) facts = tt

  all_indexes-found :
      (s : CountSubject) (es : Exprs) (facts : ShapeFacts)
      → All (Bounds s (collect_all_indexes es facts)) (all_indexes s es)
  all_indexes-found s nil facts = tt
  all_indexes-found s (cons e es) facts =
      let facts' = collect_index_references e facts in
      All-append _ (indexes s e) (all_indexes s es)
        (carried (collect_all_indexes es) (collect_all_indexes-Keeps es) s facts' (indexes s e)
          (indexes-found s e facts))
        (all_indexes-found s es facts')

pub collect_index_references-Bounds :
    (s : CountSubject) (e : Expr) (facts : ShapeFacts)
    → All (Bounds s (collect_index_references e facts)) (indexes s e)
collect_index_references-Bounds s e facts = indexes-found s e facts
