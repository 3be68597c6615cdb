-- ===== src/Application/Exact.antt =====
-- compiler/ir/src/application.rs, compiler/semantic/src/checker.rs: the exact counts of a model are
-- counts that the checker has seen stated.
use text.Mathlib.Text.{◌==◌ as str_eq}
use kaspa_script.Prelude.{
  ℕ, ◌≡◌, refl, ◌^◌, List, [], ◌∷◌, Option, none, some, All, All-append_parts, ltb, Bool-cases, inl,
  inr,
}
use kaspa_script.Syntax.Token.{Span}
use kaspa_script.Syntax.Ast.{Expr, BinaryOp, Stmt, let_stmt, require, return}
use kaspa_script.Semantic.Shape
use kaspa_script.Semantic.Shape.{literal, paired, or_else}
use kaspa_script.Semantic.Shape.Counts.{counts, stated}
use kaspa_script.Semantic.InRange.{body_counts}
use kaspa_script.Application.Shape.{
  CountSubject, input, output, count_subject, integer_of, both, try_u32, subject_count, exact_of,
  exact_count_constraint, ExactCounts, set_count, collect_exact_transaction_counts,
  exact_transaction_counts,
}

-- The checker's subject of the same name.
abbrev pub checked : CountSubject → Shape.CountSubject
checked input = Shape.input
checked output = Shape.output

abbrev map_subject : Option CountSubject → Option Shape.CountSubject
map_subject none = none
map_subject (some s) = some (checked s)

abbrev value_of : Option (ℕ × Span) → Option ℕ
value_of none = none
value_of (some (n, at)) = some n

-- A recorded count that `Q` holds of, if there is one.
abbrev pub Meets : (ℕ → Type 0) → Option ℕ → Type 0
Meets Q none = Unit
Meets Q (some n) = Q n

module _ (Q : Shape.CountSubject → ℕ → Type 0) where
  abbrev pub MeetsBoth : ExactCounts → Type 0
  MeetsBoth c = Meets (Q Shape.input) c.input_count × Meets (Q Shape.output) c.output_count

  -- `Q` holds of the counts that a constraint states.
  abbrev Stated : Option (Shape.CountSubject × ℕ × Span) → Type 0
  Stated none = Unit
  Stated (some (s, n, _)) = Q s n

  abbrev Recorded : Option (CountSubject × ℕ) → Type 0
  Recorded none = Unit
  Recorded (some (s, n)) = Q (checked s) n

  subject_count-Recorded :
      (s : CountSubject) (n : ℕ) → Q (checked s) n → Recorded (subject_count s n)
  unfolding subject_count both try_u32
  subject_count-Recorded s n h = elim (Bool-cases (ltb n (2 ^ 32))) [
    | inl small ↦ rw small h
    | inr large ↦ rw large tt
  ]

  -- The two pairs of the checker's test, in the order of the model's.
  exact_of-Recorded :
      (l : Option CountSubject) (rn ln : Option (ℕ × Span)) (r : Option CountSubject)
      → Stated (or_else (paired (map_subject l) rn) (paired (map_subject r) ln))
      → Recorded (exact_of l (value_of rn) (value_of ln) r)
  unfolding exact_of or_else paired
  exact_of-Recorded (some s) (some (n, at)) ln r h = subject_count-Recorded s n h
  exact_of-Recorded none rn (some (n, at)) (some s) h = subject_count-Recorded s n h
  exact_of-Recorded (some s) none (some (n, at)) (some s') h = subject_count-Recorded s' n h
  exact_of-Recorded _ _ _ _ h = tt

  subject-same : (e : Expr) → Shape.count_subject e ≡ map_subject (count_subject e)
  unfolding Shape.count_subject count_subject
  subject-same (Expr.ident i) = elim (Bool-cases (str_eq i.name "input_count")) [
    | inl is_input ↦ rw is_input refl
    | inr other ↦ rw other (elim (Bool-cases (str_eq i.name "output_count")) [
      | inl is_output ↦ rw is_output refl
      | inr neither ↦ rw neither refl
    ])
  ]
  subject-same _ = refl

  value-same : (e : Expr) → integer_of e ≡ value_of (literal e)
  unfolding integer_of literal
  value-same (Expr.integer n _) = refl
  value-same _ = refl

  exact-Recorded :
      (e : Expr) → Stated (Shape.exact_count_constraint e) → Recorded (exact_count_constraint e)
  unfolding Shape.exact_count_constraint exact_count_constraint
  exact-Recorded (Expr.binary l BinaryOp.equal r _) h =
      rw (value-same r, value-same l)
        (exact_of-Recorded (count_subject l) (literal r) (literal l) (count_subject r)
          (rw (← subject-same l, ← subject-same r) h))
  exact-Recorded _ h = tt

  stated-All :
      (o : Option (Shape.CountSubject × ℕ × Span))
      → ((s : Shape.CountSubject) → All (Q s) (stated s o))
      → Stated o
  stated-All none h = tt
  stated-All (some (Shape.input, n, _)) h = (h Shape.input).0
  stated-All (some (Shape.output, n, _)) h = (h Shape.output).0

  set_count-Meets :
      (o : Option (CountSubject × ℕ)) (c : ExactCounts)
      → Recorded o
      → MeetsBoth c
      → MeetsBoth (set_count o c)
  unfolding set_count
  set_count-Meets none c h k = k
  set_count-Meets (some (input, n)) c h k = (h, k.1)
  set_count-Meets (some (output, n)) c h k = (k.0, h)

  collect-Meets :
      (e : Expr) (c : ExactCounts)
      → ((s : Shape.CountSubject) → All (Q s) (counts s e))
      → MeetsBoth c
      → MeetsBoth (collect_exact_transaction_counts e c)
  unfolding collect_exact_transaction_counts counts
  collect-Meets (Expr.binary l BinaryOp.and r _) c h k =
      collect-Meets r (collect_exact_transaction_counts l c)
        (λ s. (All-append_parts (Q s) (counts s l) (counts s r) (h s)).1)
        (collect-Meets l c (λ s. (All-append_parts (Q s) (counts s l) (counts s r) (h s)).0) k)
  collect-Meets e c h k =
      set_count-Meets (exact_count_constraint e) c (exact-Recorded e (stated-All _ h)) k

  -- What holds of each count that a body states holds of the counts in its model.
  pub exact_transaction_counts-Meets :
      (ss : List Stmt) (c : ExactCounts)
      → ((s : Shape.CountSubject) → All (Q s) (body_counts s ss))
      → MeetsBoth c
      → MeetsBoth (exact_transaction_counts ss c)
  unfolding exact_transaction_counts body_counts
  exact_transaction_counts-Meets [] c h k = k
  exact_transaction_counts-Meets (require e _ ∷ ss) c h k =
      exact_transaction_counts-Meets ss (collect_exact_transaction_counts e c)
        (λ s. (All-append_parts (Q s) (counts s e) (body_counts s ss) (h s)).1)
        (collect-Meets e c (λ s. (All-append_parts (Q s) (counts s e) (body_counts s ss) (h s)).0)
          k)
  exact_transaction_counts-Meets (let_stmt _ _ _ ∷ ss) c h k =
      exact_transaction_counts-Meets ss c h k
  exact_transaction_counts-Meets (return _ _ ∷ ss) c h k = exact_transaction_counts-Meets ss c h k
