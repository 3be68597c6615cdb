-- ===== src/Codegen/Grounding/Required.antt =====
-- compiler/semantic/src/checker.rs and compiler/codegen/src/grounding.rs: the KIPs that an analysis
-- reports are those that the backend has records for.
use kaspa_script.Prelude.{
  ℕ, ◌≡◌, ◌≢◌, refl, true, List, [], ◌∷◌, Option, none, some, ◌==◌, ==_iff, All, Bool-cases, inl,
  inr,
}
use kaspa_script.Syntax.Ast.{Program}
use kaspa_script.Semantic.Kips.{has_kip, collect_kip_requirements}
use kaspa_script.Semantic.Kips.Sorted.{known_kips, collect_kip_requirements-Ascending}
use kaspa_script.Codegen.Target.{GroundingRecord}
use kaspa_script.Codegen.Grounding.{record_for_kip}

found : {r : GroundingRecord} {o : Option GroundingRecord} → o ≡ some r → o ≢ none
found h k = cc

recorded : (k : ℕ) → has_kip k known_kips ≡ true → record_for_kip k ≢ none
unfolding has_kip record_for_kip
recorded k h = elim (Bool-cases (k == 10)) [
  | inl e ↦ rw ((==_iff k 10).0 e) (found refl)
  | inr n₁ ↦ elim (Bool-cases (k == 15)) [
    | inl e ↦ rw ((==_iff k 15).0 e) (found refl)
    | inr n₂ ↦ elim (Bool-cases (k == 16)) [
      | inl e ↦ rw ((==_iff k 16).0 e) (found refl)
      | inr n₃ ↦ elim (Bool-cases (k == 20)) [
        | inl e ↦ rw ((==_iff k 20).0 e) (found refl)
        | inr n₄ ↦ cc (rw (n₁, n₂, n₃, n₄) at h)
      ]
    ]
  ]
]

each_recorded :
    (ks : List ℕ)
    → All (λ k. has_kip k known_kips ≡ true) ks
    → All (λ k. record_for_kip k ≢ none) ks
each_recorded [] h = tt
each_recorded (k ∷ ks) (known, h) = (recorded k known, each_recorded ks h)

-- The backend has a record for each KIP in the list that is collected from a program.
pub record_for_kip-required :
    (p : Program) → All (λ k. record_for_kip k ≢ none) (collect_kip_requirements p)
record_for_kip-required p =
    each_recorded (collect_kip_requirements p) (collect_kip_requirements-Ascending p).1
