-- ===== src/Protocol/Manifest.antt =====
-- compiler/protocol/src/lib.rs: features, their statuses, and the checks of requirements.
use Prim.Native.String
use kaspa_script.Prelude.{
  ℕ, String, Bool, true, false, List, [], ◌∷◌, Option, none, some, ◌&&◌, ◌||◌, not, if◌then◌else◌,
}
use kaspa_script.Prelude.Fault.{Result, ok, err}

pub data Network : Type 0 where
  tn12 mainnet : Network

pub data ProtocolFeature : Type 0 where
  base_script transaction_introspection covenant_ids sequencing_commitments zk_verification :
      ProtocolFeature

pub data FeatureStatus : Type 0 where
  stable active_testnet pending_activation unpinned unsupported : FeatureStatus

pub record FeatureSpec : Type 0 where
  pub feature : ProtocolFeature
  pub status : FeatureStatus
  pub source : String

pub record ProtocolLimits : Type 0 where
  pub max_source_bytes : ℕ
  pub max_contracts : ℕ
  pub max_params_per_contract : ℕ
  pub max_spends_per_contract : ℕ
  pub max_spend_params : ℕ
  pub max_requires_per_spend : ℕ
  pub max_expression_depth : ℕ

pub record ProtocolManifest : Type 0 where
  pub name : String
  pub network : Network
  pub source_commit : Option String
  pub features : List FeatureSpec
  pub limits : ProtocolLimits
  pub bytecode_emission_allowed : Bool

pub data ProtocolError : Type 0 where
  missing_features unpinned_features : List ProtocolFeature → ProtocolError
  bytecode_emission_locked : String → ProtocolError

-- `feature == other`, the derived equality.
unfoldable pub feature_eq : ProtocolFeature → ProtocolFeature → Bool
feature_eq ProtocolFeature.base_script ProtocolFeature.base_script = true
feature_eq ProtocolFeature.transaction_introspection ProtocolFeature.transaction_introspection =
    true
feature_eq ProtocolFeature.covenant_ids ProtocolFeature.covenant_ids = true
feature_eq ProtocolFeature.sequencing_commitments ProtocolFeature.sequencing_commitments = true
feature_eq ProtocolFeature.zk_verification ProtocolFeature.zk_verification = true
feature_eq _ _ = false

-- `matches!(status, Unpinned | Unsupported)`
unfoldable pub is_closed : FeatureStatus → Bool
is_closed FeatureStatus.unpinned = true
is_closed FeatureStatus.unsupported = true
is_closed _ = false

unfoldable pub any_supports : List FeatureSpec → ProtocolFeature → Bool
unfolding feature_eq is_closed
any_supports [] feature = false
any_supports (spec ∷ specs) feature =
    (feature_eq spec.feature feature && not (is_closed spec.status)) || any_supports specs feature

-- `ProtocolManifest::supports`
unfoldable pub supports : ProtocolManifest → ProtocolFeature → Bool
unfolding any_supports
supports m feature = any_supports m.features feature

unfoldable pub find_status : List FeatureSpec → ProtocolFeature → Option FeatureStatus
unfolding feature_eq
find_status [] feature = none
find_status (spec ∷ specs) feature =
    if feature_eq spec.feature feature then some spec.status else find_status specs feature

-- `ProtocolManifest::feature_status`
unfoldable pub feature_status : ProtocolManifest → ProtocolFeature → Option FeatureStatus
unfolding find_status
feature_status m feature = find_status m.features feature

-- The two locals of `validate_requirements`.
pub record Refused : Type 0 where
  pub missing : List ProtocolFeature
  pub unpinned : List ProtocolFeature

-- What the loop does with a requirement of a status, before the rest.
unfoldable pub refuse : ProtocolFeature → Option FeatureStatus → Refused → Refused
unfolding is_closed
refuse feature none rest = record rest { missing = feature ∷ rest.missing }
refuse feature (some status) rest =
    if is_closed status then record rest { unpinned = feature ∷ rest.unpinned } else rest

unfoldable pub refused : ProtocolManifest → List ProtocolFeature → Refused
unfolding refuse feature_status
refused m [] = record { missing = []; unpinned = [] }
refused m (r ∷ rs) = refuse r (feature_status m r) (refused m rs)

unfoldable pub verdict :
    List ProtocolFeature → List ProtocolFeature → Result ProtocolError (Unit {0})
verdict (f ∷ fs) xs = err (missing_features (f ∷ fs))
verdict [] (f ∷ fs) = err (unpinned_features (f ∷ fs))
verdict [] [] = ok tt

-- `ProtocolManifest::validate_requirements`
unfoldable pub validate_requirements :
    ProtocolManifest → List ProtocolFeature → Result ProtocolError (Unit {0})
unfolding verdict refused
validate_requirements m requirements =
    let r = refused m requirements in verdict r.missing r.unpinned

-- `ProtocolManifest::ensure_bytecode_emission_allowed`
unfoldable pub ensure_bytecode_emission_allowed : ProtocolManifest → Result ProtocolError (Unit {0})
ensure_bytecode_emission_allowed m =
    if m.bytecode_emission_allowed then ok tt else err (bytecode_emission_locked m.name)

-- `Display` of `ProtocolFeature`
unfoldable pub feature_text : ProtocolFeature → String
feature_text ProtocolFeature.base_script = "base-script"
feature_text ProtocolFeature.transaction_introspection = "transaction-introspection"
feature_text ProtocolFeature.covenant_ids = "covenant-ids"
feature_text ProtocolFeature.sequencing_commitments = "sequencing-commitments"
feature_text ProtocolFeature.zk_verification = "zk-verification"

unfoldable pub format_features : List ProtocolFeature → String
unfolding feature_text
format_features [] = ""
format_features (f ∷ []) = feature_text f
format_features (f ∷ g ∷ fs) =
    String.◌++◌ (feature_text f) (String.◌++◌ ", " (format_features (g ∷ fs)))

-- `Display` of `ProtocolError`
unfoldable pub error_text : ProtocolError → String
unfolding format_features
error_text (missing_features features) =
    String.◌++◌ "protocol target does not support: " (format_features features)
error_text (unpinned_features features) =
    String.◌++◌ "protocol target has unpinned feature definitions: " (format_features features)
error_text (bytecode_emission_locked manifest) =
    String.◌++◌ "bytecode emission is locked for protocol manifest `"
      (String.◌++◌ manifest "` until consensus opcode definitions are pinned")
