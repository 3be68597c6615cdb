-- ===== src/Application/Assurances.antt =====
-- compiler/model/src/lib.rs: what compilation guarantees, and what stays external.
use kaspa_script.Prelude.{String, List, [], ◌∷◌}
use kaspa_script.Application.Model.{
  ExecutionModel, AssuranceActor, Assurance, AssuranceProfile, ContractModel, ApplicationModel,
}

-- `Assurance::new`
abbrev pub assurance : String → AssuranceActor → String → Assurance
assurance id actor statement = record { id = id; actor = actor; statement = statement }

abbrev pub compiler_guarantees : List Assurance
compiler_guarantees =
    assurance "checked-source" AssuranceActor.compiler
      "The source parsed and passed KaspaScript semantic checks."
    ∷ assurance "deterministic-lowering" AssuranceActor.compiler
        "The checked program lowers deterministically to typed IR and artifact metadata."
    ∷ assurance "explicit-monetary-effects" AssuranceActor.compiler
        "Compilation does not create transaction outputs, recipients, fees, or change."
    ∷ assurance "inspectable-signing-intent" AssuranceActor.compiler
        "Recognized signature requirements and transaction constraints are preserved in the application model."
    ∷ []

abbrev pub external_obligations : List Assurance
external_obligations =
    assurance "transaction-instantiation" AssuranceActor.application
      "Construct concrete inputs, outputs, arguments, and continuation records that satisfy every transition constraint."
    ∷ assurance "fees-and-change" AssuranceActor.wallet
        "Choose and display fees, change, and every recipient explicitly before signing."
    ∷ assurance "signature-collection" AssuranceActor.wallet
        "Resolve authorized keys and collect the signatures required by the selected transition."
    ∷ assurance "network-validation" AssuranceActor.node
        "Validate consensus, standardness, mass, fee policy, and target-network rules."
    ∷ assurance "lineage-and-reorgs" AssuranceActor.indexer
        "Track accepted UTXOs, covenant lineage, duplicate transitions, and reorg effects."
    ∷ assurance "activation-evidence" AssuranceActor.operator
        "Verify release, network, KIP, and activation assumptions against current primary sources."
    ∷ []

abbrev pub kaspascript_defaults : AssuranceProfile
kaspascript_defaults = record {
  compiler_guarantees = compiler_guarantees;
  external_obligations = external_obligations;
}

-- `APPLICATION_MODEL_SCHEMA_VERSION`
abbrev pub schema_version : String
schema_version = "kaspascript.application.v0"

-- `ApplicationModel::new`
unfoldable pub new : List ContractModel → ApplicationModel
new contracts = record {
  schema_version = schema_version;
  execution_model = ExecutionModel.kaspa_utxo_state_machine;
  contracts = contracts;
  assurances = kaspascript_defaults;
}

-- `ApplicationModel::empty`
unfoldable pub empty : ApplicationModel
unfolding new
empty = new []
