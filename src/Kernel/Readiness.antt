-- ===== src/Kernel/Readiness.antt =====
-- kernel/src/lib.rs: the evidence for a feature and the readiness report of a blueprint.
use Prim.Native.String
use kaspa_script.Prelude.{
  String, Bool, true, false, ◌&&◌, ◌||◌, not, Option, none, some, List, [], ◌∷◌, any, leb,
  if◌then◌else◌,
}
use kaspa_script.Kernel.Model.{
  Network, KernelFeature, EvidenceLevel, SourceEvidence, FeatureRequirement, Transition,
  ContractBlueprint, rank, feature_name, level_name,
}

pub data ReadinessLevel : Type 0 where
  verified preview blocked : ReadinessLevel

pub record FeatureReadiness : Type 0 where
  pub transition : String
  pub feature : KernelFeature
  pub required : EvidenceLevel
  pub best : Option EvidenceLevel
  pub level : ReadinessLevel
  pub satisfied : Bool
  pub source_label : Option String

pub record ReadinessReport : Type 0 where
  pub contract : String
  pub network : Network
  pub level : ReadinessLevel
  pub ready : Bool
  pub blockers : List String
  pub features : List FeatureReadiness

-- `feature == other`, the derived equality.
unfoldable pub same_feature : KernelFeature → KernelFeature → Bool
same_feature KernelFeature.base_script KernelFeature.base_script = true
same_feature KernelFeature.transaction_introspection KernelFeature.transaction_introspection = true
same_feature KernelFeature.covenant_ids KernelFeature.covenant_ids = true
same_feature KernelFeature.sequencing_commitments KernelFeature.sequencing_commitments = true
same_feature KernelFeature.zk_verification KernelFeature.zk_verification = true
same_feature KernelFeature.fee_policy KernelFeature.fee_policy = true
same_feature KernelFeature.wallet_preview KernelFeature.wallet_preview = true
same_feature KernelFeature.indexer_lineage KernelFeature.indexer_lineage = true
same_feature _ _ = false

-- `network == other`, the derived equality.
unfoldable pub same_network : Network → Network → Bool
same_network Network.mainnet Network.mainnet = true
same_network Network.tn10 Network.tn10 = true
same_network Network.tn12 Network.tn12 = true
same_network Network.simnet Network.simnet = true
same_network Network.devnet Network.devnet = true
same_network Network.unknown Network.unknown = true
same_network _ _ = false

-- `SourceEvidence::covers`
unfoldable pub covers : SourceEvidence → KernelFeature → Network → Bool
unfolding same_feature same_network
covers e feature network =
    any (λ f. same_feature f feature) e.features
    && (same_network e.network Network.unknown || same_network e.network network)

-- `EvidenceLevel::proves_mainnet_activation`
unfoldable pub proves_mainnet_activation : EvidenceLevel → Bool
proves_mainnet_activation EvidenceLevel.mainnet_activation = true
proves_mainnet_activation _ = false

-- `max_by_key`, which keeps the last of the greatest: an evidence replaces one of no higher level.
unfoldable pub higher : Option SourceEvidence → SourceEvidence → Option SourceEvidence
unfolding rank
higher none e = some e
higher (some best) e = if leb (rank best.level) (rank e.level) then some e else some best

unfoldable pub max_by_level :
    KernelFeature → Network → List SourceEvidence → Option SourceEvidence → Option SourceEvidence
unfolding covers higher
max_by_level feature network [] best = best
max_by_level feature network (e ∷ es) best =
    max_by_level feature network es (if covers e feature network then higher best e else best)

-- `ContractBlueprint::best_evidence`
unfoldable pub best_evidence : ContractBlueprint → KernelFeature → Option SourceEvidence
unfolding max_by_level
best_evidence b feature = max_by_level feature b.network b.evidence none

-- `is_some_and(|evidence| evidence.level >= minimum)`
unfoldable pub meets : EvidenceLevel → Option SourceEvidence → Bool
unfolding rank
meets minimum none = false
meets minimum (some e) = leb (rank minimum) (rank e.level)

unfoldable pub best_level_name : Option SourceEvidence → String
unfolding level_name
best_level_name none = level_name EvidenceLevel.unknown
best_level_name (some e) = level_name e.level

unfoldable pub requirement_blocker : String → FeatureRequirement → Option SourceEvidence → String
unfolding best_level_name feature_name level_name
requirement_blocker transition r best = String.◌++◌ "transition `" (
    String.◌++◌ transition (
      String.◌++◌ "` requires " (
        String.◌++◌ (feature_name r.feature) (
          String.◌++◌ " at " (
            String.◌++◌ (level_name r.minimum_evidence)
              (String.◌++◌ ", best evidence is " (best_level_name best)))))))

unfoldable pub feature_level : Bool → Option SourceEvidence → ReadinessLevel
feature_level true best = ReadinessLevel.verified
feature_level false (some e) = ReadinessLevel.preview
feature_level false none = ReadinessLevel.blocked

unfoldable pub level_of : Option SourceEvidence → Option EvidenceLevel
level_of none = none
level_of (some e) = some e.level

unfoldable pub source_label_of : Option SourceEvidence → Option String
source_label_of none = none
source_label_of (some e) = some e.label

-- What the loops over the transitions add to: the blockers and the lines of the features.
pub record Findings : Type 0 where
  pub blockers : List String
  pub features : List FeatureReadiness

-- One requirement of a transition, and the findings of what follows it.
unfoldable pub note_requirement :
    ContractBlueprint → String → FeatureRequirement → Findings → Findings
unfolding best_evidence meets requirement_blocker feature_level level_of source_label_of
note_requirement b transition r rest =
    let best = best_evidence b r.feature in
    let satisfied = meets r.minimum_evidence best in
    let line = requirement_blocker transition r best in
    record {
      blockers = if satisfied then rest.blockers else line ∷ rest.blockers;
      features =
          record {
            transition = transition;
            feature = r.feature;
            required = r.minimum_evidence;
            best = level_of best;
            level = feature_level satisfied best;
            satisfied = satisfied;
            source_label = source_label_of best;
          }
          ∷ rest.features;
    }

unfoldable pub note_requirements :
    ContractBlueprint → String → List FeatureRequirement → Findings → Findings
unfolding note_requirement
note_requirements b transition [] rest = rest
note_requirements b transition (r ∷ rs) rest =
    note_requirement b transition r (note_requirements b transition rs rest)

unfoldable pub note_transitions : ContractBlueprint → List Transition → Findings
unfolding note_requirements
note_transitions b [] = record { blockers = []; features = [] }
note_transitions b (t ∷ ts) = note_requirements b t.name t.requirements (note_transitions b ts)

unfoldable pub is_unproved_mainnet : ContractBlueprint → Bool
unfolding same_network proves_mainnet_activation
is_unproved_mainnet b =
    same_network b.network Network.mainnet
    && not (any (λ e. proves_mainnet_activation e.level) b.evidence)

unfoldable pub no_blockers : List String → Bool
no_blockers [] = true
no_blockers (_ ∷ _) = false

abbrev pub unproved : String
unproved = "mainnet activation is not verified; pre-activation releases are not enough"

unfoldable pub overall : Bool → Network → ReadinessLevel
unfolding same_network
overall false network = ReadinessLevel.blocked
overall true network =
    if same_network network Network.unknown then ReadinessLevel.preview else ReadinessLevel.verified

-- `ContractBlueprint::readiness_report`
unfoldable pub readiness_report : ContractBlueprint → ReadinessReport
unfolding note_transitions is_unproved_mainnet no_blockers overall
readiness_report b =
    let found = note_transitions b b.transitions in
    let blockers = if is_unproved_mainnet b then unproved ∷ found.blockers else found.blockers in
    record {
      contract = b.name;
      network = b.network;
      level = overall (no_blockers blockers) b.network;
      ready = no_blockers blockers;
      blockers = blockers;
      features = found.features;
    }
