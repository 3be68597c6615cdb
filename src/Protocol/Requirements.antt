-- ===== src/Protocol/Requirements.antt =====
-- compiler/protocol/src/lib.rs: the requirements that a manifest lets through.
use kaspa_script.Prelude.{
  ◌≡◌, ◌≢◌, ◌↔◌, refl, Bool, true, false, List, [], ◌∷◌, Option, none, some, All, Bool-cases, inl,
  inr, ◌||◌, not, any, if◌then◌else◌,
}
use kaspa_script.Prelude.Fault.{Result, ok, err, err-ne-ok}
use kaspa_script.Protocol.Manifest.{
  ProtocolError, missing_features, unpinned_features, ProtocolFeature, FeatureStatus, FeatureSpec,
  ProtocolManifest, feature_eq, is_closed, any_supports, supports, find_status, feature_status,
  Refused, refuse, refused, verdict, validate_requirements,
}

-- No feature is listed twice.
abbrev pub OneEach : List FeatureSpec → Type 0
OneEach [] = Unit
OneEach (s ∷ ss) = (any (λ t. feature_eq t.feature s.feature) ss ≡ false) × OneEach ss

-- A status, and one that is neither unpinned nor unsupported.
abbrev pub is_open : Option FeatureStatus → Bool
is_open none = false
is_open (some status) = not (is_closed status)

-- The requirements whose status passes a test, in order.
abbrev pub chosen :
    (Option FeatureStatus → Bool) → ProtocolManifest → List ProtocolFeature → List ProtocolFeature
chosen p m [] = []
chosen p m (r ∷ rs) = let rest = chosen p m rs in if p (feature_status m r) then r ∷ rest else rest

abbrev pub is_missing : Option FeatureStatus → Bool
is_missing none = true
is_missing (some _) = false

abbrev pub is_refused : Option FeatureStatus → Bool
is_refused none = false
is_refused (some status) = is_closed status

feature_eq_sound : (f g : ProtocolFeature) → feature_eq f g ≡ true → f ≡ g
unfolding feature_eq
feature_eq_sound ProtocolFeature.base_script ProtocolFeature.base_script h = refl
feature_eq_sound ProtocolFeature.transaction_introspection ProtocolFeature.transaction_introspection
      h =
    refl
feature_eq_sound ProtocolFeature.covenant_ids ProtocolFeature.covenant_ids h = refl
feature_eq_sound ProtocolFeature.sequencing_commitments ProtocolFeature.sequencing_commitments h =
    refl
feature_eq_sound ProtocolFeature.zk_verification ProtocolFeature.zk_verification h = refl
feature_eq_sound _ _ h = cc

false_ne : true ≢ false
false_ne h = cc

cons-ne_nil : {A : Type 0} {x : A} {xs : List A} → ◌≢◌ {A = List A} (x ∷ xs) []
cons-ne_nil h = cc

none_supports :
    (ss : List FeatureSpec) (f : ProtocolFeature)
    → any (λ t. feature_eq t.feature f) ss ≡ false
    → any_supports ss f ≡ false
unfolding any_supports
none_supports [] f h = refl
none_supports (s ∷ ss) f h = elim (Bool-cases (feature_eq s.feature f)) [
  | inl same ↦ absurd (false_ne (rw same at h))
  | inr other ↦ rw other (none_supports ss f (rw other at h))
]

or_false : (b : Bool) → (b || false) ≡ b
or_false true = refl
or_false false = refl

supports-find :
    (ss : List FeatureSpec) (f : ProtocolFeature)
    → OneEach ss
    → any_supports ss f ≡ is_open (find_status ss f)
unfolding any_supports find_status
supports-find [] f h = refl
supports-find (s ∷ ss) f (new, h) = elim (Bool-cases (feature_eq s.feature f)) [
  | inl same ↦
      let only : any_supports ss f ≡ false =
        none_supports ss f (rw (← feature_eq_sound s.feature f same) new) in
      rw (same, only) (or_false (not (is_closed s.status)))
  | inr other ↦ rw other (supports-find ss f h)
]

refuse-chosen :
    (r : ProtocolFeature) (o : Option FeatureStatus) (rest : Refused)
    → ((refuse r o rest).missing ≡ (if is_missing o then r ∷ rest.missing else rest.missing))
      × ((refuse r o rest).unpinned ≡ (if is_refused o then r ∷ rest.unpinned else rest.unpinned))
unfolding refuse
refuse-chosen r none rest = (refl, refl)
refuse-chosen r (some status) rest = elim (Bool-cases (is_closed status)) [
  | inl closed ↦ rw closed (refl, refl)
  | inr open_status ↦ rw open_status (refl, refl)
]

refused-chosen :
    (m : ProtocolManifest) (rs : List ProtocolFeature)
    → ((refused m rs).missing ≡ chosen is_missing m rs)
      × ((refused m rs).unpinned ≡ chosen is_refused m rs)
unfolding refused
refused-chosen m [] = (refl, refl)
refused-chosen m (r ∷ rs) =
    let (missing, unpinned) = refused-chosen m rs in
    let (e, e') = refuse-chosen r (feature_status m r) (refused m rs) in
    (rw (e, missing) refl, rw (e', unpinned) refl)

verdict-ok : (xs ys : List ProtocolFeature) → verdict xs ys ≡ ok tt → (xs ≡ []) × (ys ≡ [])
unfolding verdict
verdict-ok (f ∷ fs) ys h = absurd (err-ne-ok h)
verdict-ok [] (f ∷ fs) h = absurd (err-ne-ok h)
verdict-ok [] [] h = (refl, refl)

verdict-nil : verdict [] [] ≡ ok tt
unfolding verdict
verdict-nil = refl

chosen-nil :
    (p : Option FeatureStatus → Bool) (m : ProtocolManifest) (rs : List ProtocolFeature)
    → (chosen p m rs ≡ []) ↔ All (λ r. p (feature_status m r) ≡ false) rs
chosen-nil p m [] = (λ h. tt, λ h. refl)
chosen-nil p m (r ∷ rs) = elim (Bool-cases (p (feature_status m r))) [
  | inl picked ↦ rw picked (λ h. absurd (cons-ne_nil h), λ h. absurd (false_ne h.0))
  | inr left_out ↦
      rw left_out (λ h. (refl, (chosen-nil p m rs).0 h), λ h. (chosen-nil p m rs).1 h.1)
]

open_iff :
    (o : Option FeatureStatus)
    → ((is_missing o ≡ false) × (is_refused o ≡ false)) ↔ (is_open o ≡ true)
open_iff none = (λ h. absurd (false_ne h.0), λ h. cc)
open_iff (some status) = elim (Bool-cases (is_closed status)) [
  | inl closed ↦ rw closed (λ h. absurd (false_ne h.1), λ h. cc)
  | inr open_status ↦ rw open_status (λ h. refl, λ h. (refl, refl))
]

chosen-checked :
    (m : ProtocolManifest) (rs : List ProtocolFeature)
    → validate_requirements m rs ≡ verdict (chosen is_missing m rs) (chosen is_refused m rs)
unfolding validate_requirements
chosen-checked m rs = let (missing, unpinned) = refused-chosen m rs in rw (missing, unpinned) refl

-- None of the requirements has a status that passes the test.
abbrev pub None : (Option FeatureStatus → Bool) → ProtocolManifest → List ProtocolFeature → Type 0
None p m = All (λ r. p (feature_status m r) ≡ false)

-- What the check is to give: missing requirements come before the others, and both are listed in full.
pub data Checked (m : ProtocolManifest) (rs : List ProtocolFeature)
    : Result ProtocolError (Unit {0}) → Type 0 where
  some_missing :
      {fs : List ProtocolFeature}
      → chosen is_missing m rs ≡ fs
      → fs ≢ []
      → Checked m rs (err (missing_features fs))
  some_refused :
      {fs : List ProtocolFeature}
      → None is_missing m rs
      → chosen is_refused m rs ≡ fs
      → fs ≢ []
      → Checked m rs (err (unpinned_features fs))
  all_supported : None is_missing m rs → None is_refused m rs → Checked m rs (ok tt)

verdict-Checked :
    (m : ProtocolManifest) (rs xs ys : List ProtocolFeature)
    → chosen is_missing m rs ≡ xs
    → chosen is_refused m rs ≡ ys
    → Checked m rs (verdict xs ys)
unfolding verdict
verdict-Checked m rs (x ∷ xs) ys e e' = some_missing e cons-ne_nil
verdict-Checked m rs [] (y ∷ ys) e e' =
    some_refused ((chosen-nil is_missing m rs).0 e) e' cons-ne_nil
verdict-Checked m rs [] [] e e' =
    all_supported ((chosen-nil is_missing m rs).0 e) ((chosen-nil is_refused m rs).0 e')

-- The check of requirements reports those that have no spec in the manifest, in order, if there are
-- any; else those whose status is unpinned or unsupported, in order, if there are any; and where there
-- are neither, it succeeds.
pub validate_requirements-Checked :
    (m : ProtocolManifest) (rs : List ProtocolFeature) → Checked m rs (validate_requirements m rs)
validate_requirements-Checked m rs = rw (chosen-checked m rs) (verdict-Checked m rs _ _ refl refl)

supports-of_status :
    (m : ProtocolManifest) (r : ProtocolFeature)
    → OneEach m.features
    → supports m r ≡ is_open (feature_status m r)
unfolding supports feature_status
supports-of_status m r h = supports-find m.features r h

each_open :
    (m : ProtocolManifest) (rs : List ProtocolFeature)
    → OneEach m.features
    → (All (λ r. is_missing (feature_status m r) ≡ false) rs
        × All (λ r. is_refused (feature_status m r) ≡ false) rs)
      ↔ All (λ r. supports m r ≡ true) rs
each_open m [] h = (λ _. tt, λ _. (tt, tt))
each_open m (r ∷ rs) h =
    let here = supports-of_status m r h in
    let (to, back) = open_iff (feature_status m r) in
    let (tail, tail_back) = each_open m rs h in
    (
      λ (missing, refusals). (rw here (to (missing.0, refusals.0)), tail (missing.1, refusals.1)),
      λ (supported, others).
          let opened = back (rw (← here) supported) in
          let more = tail_back others in ((opened.0, more.0), (opened.1, more.1)),
    )

-- In a manifest that lists no feature twice, the check of requirements succeeds exactly where `supports`
-- holds of each requirement.
pub validate_requirements-iff-supports :
    (m : ProtocolManifest) (rs : List ProtocolFeature)
    → OneEach m.features
    → (validate_requirements m rs ≡ ok tt) ↔ All (λ r. supports m r ≡ true) rs
validate_requirements-iff-supports m rs h =
    let by = chosen-checked m rs in
    let (to, back) = each_open m rs h in
    (
      λ valid.
          let (missing, refusals) = verdict-ok _ _ (rw by at valid) in
          to ((chosen-nil is_missing m rs).0 missing, (chosen-nil is_refused m rs).0 refusals),
      λ supported.
          let (missing, refusals) = back supported in
          rw (by, (chosen-nil is_missing m rs).1 missing, (chosen-nil is_refused m rs).1 refusals)
            (verdict-nil),
    )
