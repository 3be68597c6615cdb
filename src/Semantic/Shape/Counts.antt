-- ===== src/Semantic/Shape/Counts.antt =====
-- compiler/semantic/src/checker.rs: the exact counts that a `require` states, and the recorded ones.
use kaspa_script.Prelude.{
  ℕ, ◌≡◌, refl, List, [], ◌∷◌, ◌++◌, Option, none, some, All, All-append, All-map, leb, ◌==◌,
  ==_iff, ◌^◌, ◌-◌,
}
use kaspa_script.Syntax.Token.{Span}
use kaspa_script.Syntax.Ast.{Expr, BinaryOp}
use kaspa_script.Semantic.Checker.{Checker, demand}
use kaspa_script.Semantic.Growing.{demand-met}
use kaspa_script.Semantic.GrowingStmt.{exact_counts-IsGrowing}
use kaspa_script.Semantic.Shape.{
  collect_shape_facts, collect_index_references, CountFacts, ShapeFacts, CountSubject, input,
  output, facts_of, set_facts, exact_count_constraint, merge_exact, record_exact,
  collect_exact_counts_from_conjunction,
}
use kaspa_script.Semantic.Shape.Indexes.{
  Bounds, indexes, collect_index_references-Keeps, collect_index_references-Bounds,
}

-- The recorded count is `n`.
abbrev pub Exactly : Option (ℕ × Span) → ℕ → Type 0
Exactly none n = ⊥
Exactly (some (m, _)) n = m ≡ n

abbrev pub Counts : CountSubject → ShapeFacts → ℕ → Type 0
Counts s facts = Exactly (facts_of s facts).exact

-- The counts that the conjuncts of an expression state of the inputs, or of the outputs.
abbrev pub stated : CountSubject → Option (CountSubject × ℕ × Span) → List ℕ
stated input (some (input, n, _)) = n ∷ []
stated output (some (output, n, _)) = n ∷ []
stated _ _ = []

unfoldable pub counts : CountSubject → Expr → List ℕ
counts s (Expr.binary l BinaryOp.and r _) = counts s l ++ counts s r
counts s e = stated s (exact_count_constraint e)

-- What a check of the facts that left no error has kept.
abbrev pub Held : ShapeFacts → ShapeFacts → Type 0
Held facts after =
    (s : CountSubject)
    → ((n : ℕ) → Counts s facts n → Counts s after n)
      × ((i : ℕ) → Bounds s facts i → Bounds s after i)

Held-set :
    (t : CountSubject) (counts' : CountFacts) (facts : ShapeFacts)
    → ((n : ℕ) → Exactly (facts_of t facts).exact n → Exactly counts'.exact n)
    → (counts'.max_index ≡ (facts_of t facts).max_index)
    → Held facts (set_facts t counts' facts)
unfolding facts_of set_facts
Held-set input counts' facts h e input = (h, λ i b. rw e b)
Held-set input counts' facts h e output = (λ n c. c, λ i b. b)
Held-set output counts' facts h e input = (λ n c. c, λ i b. b)
Held-set output counts' facts h e output = (h, λ i b. rw e b)

merge_exact-new :
    (o : Option (ℕ × Span)) (value : ℕ) (span : Span) (old : CountFacts) (c : Checker)
    → o ≡ old.exact
    → (merge_exact o value span old c).1.errors ≡ []
    → Exactly (merge_exact o value span old c).0.exact value
unfolding merge_exact
merge_exact-new none value span old c e h = refl
merge_exact-new (some (m, at)) value span old c e h =
    let same = demand-met (m == value) span _ c h in rw (← e) ((==_iff m value).0 same)

merge_exact-kept :
    (o : Option (ℕ × Span)) (value : ℕ) (span : Span) (old : CountFacts) (c : Checker)
    → o ≡ old.exact
    → ((n : ℕ) → Exactly old.exact n → Exactly (merge_exact o value span old c).0.exact n)
      × ((merge_exact o value span old c).0.max_index ≡ old.max_index)
unfolding merge_exact
merge_exact-kept none value span old c e = (λ n h. absurd (rw (← e) at h), refl)
merge_exact-kept (some (m, at)) value span old c e = (λ n h. h, refl)

record_exact-Held :
    (o : Option (CountSubject × ℕ × Span)) (facts : ShapeFacts) (c : Checker)
    → Held facts (record_exact o facts c).0
unfolding record_exact
record_exact-Held none facts c = λ s. (λ n h. h, λ i h. h)
record_exact-Held (some (t, value, span)) facts c =
    let ranged =
      demand (leb value (2 ^ 32 - 1)) span "exact transaction count exceeds u32 range" c in
    let kept =
      merge_exact-kept (facts_of t facts).exact value span (facts_of t facts) ranged.1 refl in
    Held-set t (merge_exact (facts_of t facts).exact value span (facts_of t facts) ranged.1).0 facts
      kept.0 kept.1

facts-set :
    (t : CountSubject) (new : CountFacts) (facts : ShapeFacts)
    → facts_of t (set_facts t new facts) ≡ new
unfolding facts_of set_facts
facts-set input new facts = refl
facts-set output new facts = refl

record_exact-new :
    (s : CountSubject) (o : Option (CountSubject × ℕ × Span)) (facts : ShapeFacts) (c : Checker)
    → (record_exact o facts c).1.errors ≡ []
    → All (Counts s (record_exact o facts c).0) (stated s o)
unfolding record_exact facts_of set_facts
record_exact-new input (some (input, value, span)) facts c h =
    (merge_exact-new facts.inputs.exact value span facts.inputs _ refl h, tt)
record_exact-new output (some (output, value, span)) facts c h =
    (merge_exact-new facts.outputs.exact value span facts.outputs _ refl h, tt)
record_exact-new input (some (output, value, span)) facts c h = tt
record_exact-new output (some (input, value, span)) facts c h = tt
record_exact-new input none facts c h = tt
record_exact-new output none facts c h = tt

Held-then : (a b c : ShapeFacts) → Held a b → Held b c → Held a c
Held-then a b c h k s = (λ n x. (k s).0 n ((h s).0 n x), λ i x. (k s).1 i ((h s).1 i x))

exact_counts-Held :
    (e : Expr) (facts : ShapeFacts) (c : Checker)
    → Held facts (collect_exact_counts_from_conjunction e facts c).0
unfolding collect_exact_counts_from_conjunction
exact_counts-Held (Expr.binary l BinaryOp.and r _) facts c =
    let left = collect_exact_counts_from_conjunction l facts c in
    Held-then facts left.0 (collect_exact_counts_from_conjunction r left.0 left.1).0
      (exact_counts-Held l facts c) (exact_counts-Held r left.0 left.1)
exact_counts-Held e facts c = record_exact-Held (exact_count_constraint e) facts c

exact_counts-new :
    (s : CountSubject) (e : Expr) (facts : ShapeFacts) (c : Checker)
    → (collect_exact_counts_from_conjunction e facts c).1.errors ≡ []
    → All (Counts s (collect_exact_counts_from_conjunction e facts c).0) (counts s e)
unfolding collect_exact_counts_from_conjunction counts
exact_counts-new s (Expr.binary l BinaryOp.and r _) facts c h =
    let left = collect_exact_counts_from_conjunction l facts c in
    let clean = exact_counts-IsGrowing r left.0 left.1 h in
    All-append _ (counts s l) (counts s r)
      (All-map (exact_counts-Held r left.0 left.1 s).0 (counts s l)
        (exact_counts-new s l facts c clean))
      (exact_counts-new s r left.0 left.1 h)
exact_counts-new s e facts c h = record_exact-new s (exact_count_constraint e) facts c h

index_references-Held :
    (e : Expr) (facts : ShapeFacts) → Held facts (collect_index_references e facts)
index_references-Held e facts s =
    let (bounds, exact) = collect_index_references-Keeps e s facts in (λ n h. rw exact h, bounds)

pub collect_shape_facts-Held :
    (e : Expr) (facts : ShapeFacts) (c : Checker) → Held facts (collect_shape_facts e facts c).0
unfolding collect_shape_facts
collect_shape_facts-Held e facts c =
    let exact = collect_exact_counts_from_conjunction e facts c in
    Held-then facts exact.0 (collect_index_references e exact.0) (exact_counts-Held e facts c)
      (index_references-Held e exact.0)

-- The facts that one `require` leaves without an error record its counts and bound its indexes.
pub collect_shape_facts-new :
    (s : CountSubject) (e : Expr) (facts : ShapeFacts) (c : Checker)
    → (collect_shape_facts e facts c).1.errors ≡ []
    → All (Counts s (collect_shape_facts e facts c).0) (counts s e)
      × All (Bounds s (collect_shape_facts e facts c).0) (indexes s e)
unfolding collect_shape_facts
collect_shape_facts-new s e facts c h =
    let exact = collect_exact_counts_from_conjunction e facts c in
    (
      All-map (index_references-Held e exact.0 s).0 (counts s e) (exact_counts-new s e facts c h),
      collect_index_references-Bounds s e exact.0,
    )
