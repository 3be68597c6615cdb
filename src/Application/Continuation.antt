-- ===== src/Application/Continuation.antt =====
-- compiler/ir/src/application.rs: the continuation of a transition, by the bindings that there are.
use kaspa_script.Prelude.{
  ℕ, ◌≡◌, refl, Bool, true, false, List, [], ◌∷◌, any, Bool-cases, inl, inr, ltb, ◌==◌, not,
}
use kaspa_script.Application.Model.{
  OutputField, OutputBinding, ContinuationKind, NamedContinuationOutput,
}
use kaspa_script.Application.Shape.{insert_index, extend}
use kaspa_script.Application.Successors.{
  bound_indexes, is_covenant, is_script, continuation_of, named_or_unspecified, script_or_named,
  covenant_or, continuation_model,
}

abbrev pub is_empty {ℓ} : {A : Type ℓ} → List A → Bool
is_empty [] = true
is_empty (x ∷ xs) = false

-- The kind, by whether an output's covenant is bound, one's script is, and one is named: the first of
-- these that holds decides.
abbrev pub kind_by : Bool → Bool → Bool → ContinuationKind
kind_by true script named = ContinuationKind.covenant_lineage_bound
kind_by false true named = ContinuationKind.output_script_bound
kind_by false false true = ContinuationKind.named_output
kind_by false false false = ContinuationKind.unspecified

insert_index-is_empty : (i : ℕ) (xs : List ℕ) → is_empty (insert_index i xs) ≡ false
unfolding insert_index
insert_index-is_empty i [] = refl
insert_index-is_empty i (x ∷ xs) = elim (Bool-cases (ltb i x)) [
  | inl low ↦ rw low refl
  | inr high ↦
      rw high (elim (Bool-cases (i == x)) [ inl same ↦ rw same refl | inr other ↦ rw other refl ])
]

extend-filled : (set is : List ℕ) → is_empty set ≡ false → is_empty (extend set is) ≡ false
unfolding extend
extend-filled set [] h = h
extend-filled set (i ∷ is) h = extend-filled (insert_index i set) is (insert_index-is_empty i set)

extend-is_empty : (is : List ℕ) → is_empty (extend [] is) ≡ is_empty is
unfolding extend
extend-is_empty [] = refl
extend-is_empty (i ∷ is) = extend-filled (insert_index i []) is (insert_index-is_empty i [])

bound_indexes-is_empty :
    (p : OutputField → Bool) (bs : List OutputBinding)
    → not (is_empty (bound_indexes p bs)) ≡ any (λ b. p b.field) bs
unfolding bound_indexes
bound_indexes-is_empty p [] = refl
bound_indexes-is_empty p (b ∷ bs) = elim (Bool-cases (p b.field)) [
  | inl there ↦ rw there refl
  | inr absent ↦ rw absent (bound_indexes-is_empty p bs)
]

named_or_unspecified-kind :
    (named : List NamedContinuationOutput)
    → (named_or_unspecified named).kind ≡ kind_by false false (not (is_empty named))
unfolding named_or_unspecified continuation_of
named_or_unspecified-kind [] = refl
named_or_unspecified-kind (n ∷ ns) = refl

script_or_named-kind :
    (scripts : List ℕ) (named : List NamedContinuationOutput)
    → (script_or_named scripts named).kind
      ≡ kind_by false (not (is_empty scripts)) (not (is_empty named))
unfolding script_or_named continuation_of
script_or_named-kind [] named = named_or_unspecified-kind named
script_or_named-kind (i ∷ is) named = refl

covenant_or-kind :
    (covenants scripts : List ℕ) (named : List NamedContinuationOutput)
    → (covenant_or covenants scripts named).kind
      ≡ kind_by (not (is_empty covenants)) (not (is_empty scripts)) (not (is_empty named))
unfolding covenant_or continuation_of
covenant_or-kind [] scripts named =
    rw (← extend-is_empty scripts) (script_or_named-kind (extend [] scripts) named)
covenant_or-kind (i ∷ is) scripts named = refl

-- The kind of a continuation is the strongest that the bindings and names give: covenant lineage, where a
-- binding is of an output's covenant; else an output script, where one is of a script; else a named output,
-- where one is named; else it is unspecified.
pub continuation_model-kind :
    (bindings : List OutputBinding) (named : List NamedContinuationOutput)
    → (continuation_model bindings named).kind
      ≡ kind_by
          (any (λ b. is_covenant b.field) bindings)
          (any (λ b. is_script b.field) bindings)
          (not (is_empty named))
unfolding continuation_model
continuation_model-kind bindings named =
    let covenants = bound_indexes is_covenant bindings in
    rw
      (
        ← bound_indexes-is_empty is_covenant bindings,
        ← bound_indexes-is_empty is_script bindings,
        ← extend-is_empty covenants,
      )
      (covenant_or-kind (extend [] covenants) (bound_indexes is_script bindings) named)
