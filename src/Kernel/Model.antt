-- ===== src/Kernel/Model.antt =====
-- kernel/src/lib.rs: networks, features, evidence levels, transitions and blueprints.
use kaspa_script.Prelude.{ℕ, String, List, Option}
use kaspa_script.Application.Model.{TransitionModel}

pub data Network : Type 0 where
  mainnet tn10 tn12 simnet devnet unknown : Network

pub data KernelFeature : Type 0 where
  base_script transaction_introspection covenant_ids sequencing_commitments : KernelFeature
  zk_verification fee_policy wallet_preview indexer_lineage : KernelFeature

pub data EvidenceLevel : Type 0 where
  unknown research_signal docs_signal branch_code merged_kip merged_code : EvidenceLevel
  testnet_activation mainnet_pre_activation mainnet_activation : EvidenceLevel

-- `EvidenceLevel::rank`, by which levels are compared.
unfoldable pub rank : EvidenceLevel → ℕ
rank EvidenceLevel.unknown = 0
rank EvidenceLevel.research_signal = 10
rank EvidenceLevel.docs_signal = 20
rank EvidenceLevel.branch_code = 30
rank EvidenceLevel.merged_kip = 40
rank EvidenceLevel.merged_code = 50
rank EvidenceLevel.testnet_activation = 60
rank EvidenceLevel.mainnet_pre_activation = 70
rank EvidenceLevel.mainnet_activation = 100

-- `Display for KernelFeature`
unfoldable pub feature_name : KernelFeature → String
feature_name KernelFeature.base_script = "base-script"
feature_name KernelFeature.transaction_introspection = "transaction-introspection"
feature_name KernelFeature.covenant_ids = "covenant-ids"
feature_name KernelFeature.sequencing_commitments = "sequencing-commitments"
feature_name KernelFeature.zk_verification = "zk-verification"
feature_name KernelFeature.fee_policy = "fee-policy"
feature_name KernelFeature.wallet_preview = "wallet-preview"
feature_name KernelFeature.indexer_lineage = "indexer-lineage"

-- `Display for EvidenceLevel`
unfoldable pub level_name : EvidenceLevel → String
level_name EvidenceLevel.unknown = "unknown"
level_name EvidenceLevel.research_signal = "research-signal"
level_name EvidenceLevel.docs_signal = "docs-signal"
level_name EvidenceLevel.branch_code = "branch-code"
level_name EvidenceLevel.merged_kip = "merged-kip"
level_name EvidenceLevel.merged_code = "merged-code"
level_name EvidenceLevel.testnet_activation = "testnet-activation"
level_name EvidenceLevel.mainnet_pre_activation = "mainnet-pre-activation"
level_name EvidenceLevel.mainnet_activation = "mainnet-activation"

pub record SourceEvidence : Type 0 where
  pub label : String
  pub url : String
  pub audit_date : String
  pub network : Network
  pub level : EvidenceLevel
  pub features : List KernelFeature
  pub note : String

pub data StateType : Type 0 where
  public_key signature sompi daa_score block_height covenant_id hash bool u64 bytes : StateType

pub record StateField : Type 0 where
  pub name : String
  pub ty : StateType
  pub description : String

pub data TransitionKind : Type 0 where
  deposit spend timeout recover close : TransitionKind
  custom : String → TransitionKind

pub record FeatureRequirement : Type 0 where
  pub feature : KernelFeature
  pub minimum_evidence : EvidenceLevel
  pub reason : String

pub data ProofVerifier : Type 0 where
  none_verifier groth16 risc0_succinct : ProofVerifier
  external : String → ProofVerifier

pub record ProofRequirement : Type 0 where
  pub verifier : ProofVerifier
  pub public_inputs : List String
  pub payload_hint : String

pub record Transition : Type 0 where
  pub name : String
  pub kind : TransitionKind
  pub consumes : List String
  pub creates : List String
  pub signers : List String
  pub requirements : List FeatureRequirement
  pub proof : ProofRequirement
  pub wallet_warnings : List String
  pub semantics : Option TransitionModel

pub record ContractBlueprint : Type 0 where
  pub name : String
  pub network : Network
  pub state : List StateField
  pub transitions : List Transition
  pub evidence : List SourceEvidence

pub data KernelError : Type 0 where
  empty_contract_name arithmetic_overflow : KernelError
  no_transitions unknown_transition : String → KernelError
