-- ===== src/Kernel/Ready.antt =====
-- kernel/src/lib.rs: when a blueprint is ready.
use kaspa_script.Prelude.{
  ℕ, ◌≡◌, refl, ap, ◌∙◌, Bool, true, false, ◌&&◌, ◌||◌, not, List, [], ◌∷◌, any, all, leb,
  Bool-cases, inl, inr, Option, none, some, if◌then◌else◌, arith, String,
}
use kaspa_script.Kernel.Model.{
  Network, KernelFeature, EvidenceLevel, SourceEvidence, FeatureRequirement, Transition,
  ContractBlueprint, rank,
}
use kaspa_script.Kernel.Readiness.{
  Findings, covers, higher, max_by_level, best_evidence, meets, note_requirement, note_requirements,
  note_transitions, is_unproved_mainnet, no_blockers, readiness_report, same_network,
  proves_mainnet_activation,
}

-- Some evidence covers the feature on the blueprint's network at the level asked for.
abbrev pub is_backed : ContractBlueprint → FeatureRequirement → Bool
is_backed b r =
    any (λ e. covers e r.feature b.network && leb (rank r.minimum_evidence) (rank e.level))
      b.evidence

-- On the main network, some evidence proves its activation.
abbrev pub is_activated : ContractBlueprint → Bool
is_activated b =
    not (same_network b.network Network.mainnet)
    || any (λ e. proves_mainnet_activation e.level) b.evidence

leb-or_higher : (m a b : ℕ) → leb a b ≡ true → leb m b ≡ (leb m a || leb m b)
leb-or_higher m a b h = ground arith

leb-or_lower : (m a b : ℕ) → leb a b ≡ false → leb m a ≡ (leb m a || leb m b)
leb-or_lower m a b h = ground arith

or_assoc : (a b c : Bool) → ((a || b) || c) ≡ (a || (b || c))
or_assoc true b c = refl
or_assoc false b c = refl

or_false : (a : Bool) → a ≡ (a || false)
or_false true = refl
or_false false = refl

meets-higher :
    (minimum : EvidenceLevel) (best : Option SourceEvidence) (e : SourceEvidence)
    → meets minimum (higher best e) ≡ (meets minimum best || leb (rank minimum) (rank e.level))
unfolding meets higher
meets-higher minimum none e = refl
meets-higher minimum (some best) e = elim (Bool-cases (leb (rank best.level) (rank e.level))) [
  | inl h ↦ rw h (leb-or_higher (rank minimum) (rank best.level) (rank e.level) h)
  | inr h ↦ rw h (leb-or_lower (rank minimum) (rank best.level) (rank e.level) h)
]

meets-max_by_level :
    (minimum : EvidenceLevel) (f : KernelFeature) (n : Network) (es : List SourceEvidence)
    (best : Option SourceEvidence)
    → meets minimum (max_by_level f n es best)
      ≡ (meets minimum best || any (λ e. covers e f n && leb (rank minimum) (rank e.level)) es)
unfolding max_by_level
meets-max_by_level minimum f n [] best = or_false (meets minimum best)
meets-max_by_level minimum f n (e ∷ es) best = elim (Bool-cases (covers e f n)) [
  | inl h ↦ rw h (
      meets-max_by_level minimum f n es (higher best e)
      ∙ ap (λ x. x || any (λ e. covers e f n && leb (rank minimum) (rank e.level)) es)
          (meets-higher minimum best e)
      ∙ or_assoc (meets minimum best) (leb (rank minimum) (rank e.level)) _)
  | inr h ↦ rw h (meets-max_by_level minimum f n es best)
]

meets-best_evidence :
    (b : ContractBlueprint) (r : FeatureRequirement)
    → meets r.minimum_evidence (best_evidence b r.feature) ≡ is_backed b r
unfolding best_evidence meets
meets-best_evidence b r = meets-max_by_level r.minimum_evidence r.feature b.network b.evidence none

no_blockers-requirements :
    (b : ContractBlueprint) (t : String) (rs : List FeatureRequirement) (rest : Findings)
    → no_blockers (note_requirements b t rs rest).blockers
      ≡ (all (is_backed b) rs && no_blockers rest.blockers)
unfolding note_requirements note_requirement no_blockers
no_blockers-requirements b t [] rest = refl
no_blockers-requirements b t (r ∷ rs) rest = elim (Bool-cases (is_backed b r)) [
  | inl h ↦ rw (meets-best_evidence b r, h) (no_blockers-requirements b t rs rest)
  | inr h ↦ rw (meets-best_evidence b r, h)
]

no_blockers-transitions :
    (b : ContractBlueprint) (ts : List Transition)
    → no_blockers (note_transitions b ts).blockers ≡ all (λ t. all (is_backed b) t.requirements) ts
unfolding note_transitions no_blockers
no_blockers-transitions b [] = refl
no_blockers-transitions b (t ∷ ts) =
    no_blockers-requirements b t.name t.requirements (note_transitions b ts)
    ∙ ap (λ x. all (is_backed b) t.requirements && x) (no_blockers-transitions b ts)

no_blockers-unproved :
    (is_mainnet proved : Bool) (x : String) (bs : List String)
    → no_blockers (if is_mainnet && not proved then x ∷ bs else bs)
      ≡ ((not is_mainnet || proved) && no_blockers bs)
unfolding no_blockers
no_blockers-unproved true true x bs = refl
no_blockers-unproved true false x bs = refl
no_blockers-unproved false proved x bs = refl

-- A blueprint is ready exactly where each requirement of its transitions is backed by evidence that
-- covers the feature on its network at the level asked for, and, on the main network, some evidence
-- proves the activation.
pub ready-readiness_report :
    (b : ContractBlueprint)
    → (readiness_report b).ready
      ≡ (is_activated b && all (λ t. all (is_backed b) t.requirements) b.transitions)
unfolding readiness_report is_unproved_mainnet no_blockers
ready-readiness_report b =
    no_blockers-unproved (same_network b.network Network.mainnet)
      (any (λ e. proves_mainnet_activation e.level) b.evidence) _ _
    ∙ ap (λ x. is_activated b && x) (no_blockers-transitions b b.transitions)
