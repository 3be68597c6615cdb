-- ===== src/Protocol/Targets.antt =====
-- compiler/protocol/src/lib.rs: the manifests of the targets.
use kaspa_script.Prelude.{◌*◌, String, true, false, List, [], ◌∷◌, some, ◌||◌, map, if◌then◌else◌}
use kaspa_script.Protocol.Manifest.{
  Network, ProtocolFeature, FeatureStatus, FeatureSpec, ProtocolLimits, ProtocolManifest,
  feature_eq,
}

abbrev pub spec : ProtocolFeature → FeatureStatus → String → FeatureSpec
spec feature status source = record { feature = feature; status = status; source = source }

-- `ProtocolLimits::default`
abbrev pub default_limits : ProtocolLimits
default_limits = record {
  max_source_bytes = 256 * 1024;
  max_contracts = 128;
  max_params_per_contract = 256;
  max_spends_per_contract = 128;
  max_spend_params = 64;
  max_requires_per_spend = 256;
  max_expression_depth = 64;
}

unfoldable pub verified_tn12_manifest : ProtocolManifest
verified_tn12_manifest = record {
  name = "verified-tn12";
  network = Network.tn12;
  source_commit = some "rusty-kaspa:a07d8b38d45f38a02a1f35f601e874358f6c7846";
  features =
      spec ProtocolFeature.base_script FeatureStatus.active_testnet
        "kaspanet/rusty-kaspa crypto/txscript/src/opcodes/mod.rs"
      ∷ spec ProtocolFeature.transaction_introspection FeatureStatus.active_testnet
          "kaspanet/kips kip-0010.md and rusty-kaspa txscript opcodes"
      ∷ spec ProtocolFeature.covenant_ids FeatureStatus.unsupported
          "unsupported for verified-tn12; current Toccata sources are not lowered by KaspaScript"
      ∷ spec ProtocolFeature.sequencing_commitments FeatureStatus.stable
          "kaspanet/kips kip-0015.md block-header commitment, not script opcode"
      ∷ spec ProtocolFeature.zk_verification FeatureStatus.unsupported
          "unsupported for verified-tn12; current Toccata ZK precompile stack ABI is not lowered by KaspaScript"
      ∷ [];
  limits = default_limits;
  bytecode_emission_allowed = true;
}

unfoldable pub toccata_tn12_manifest : ProtocolManifest
unfolding verified_tn12_manifest
toccata_tn12_manifest = verified_tn12_manifest

-- The loop over the features, for one of them.
unfoldable pub preview_spec : FeatureSpec → FeatureSpec
unfolding feature_eq
preview_spec s =
    if feature_eq s.feature ProtocolFeature.covenant_ids
      || feature_eq s.feature ProtocolFeature.zk_verification
    then spec s.feature FeatureStatus.unpinned
        "preview-gated; current upstream Toccata source exists, KaspaScript lowering is not implemented"
    else s

-- `iter_mut().find(…)`: the first spec of the sequencing commitments has its source replaced.
unfoldable pub set_sequencing : List FeatureSpec → List FeatureSpec
unfolding feature_eq
set_sequencing [] = []
set_sequencing (s ∷ ss) =
    if feature_eq s.feature ProtocolFeature.sequencing_commitments
    then spec s.feature s.status
        "kaspanet/kips kip-0021 and rusty-kaspa OpChainblockSeqCommit; contract lowering remains gated"
      ∷ ss
    else s ∷ set_sequencing ss

unfoldable pub toccata_preview_manifest : ProtocolManifest
unfolding verified_tn12_manifest preview_spec set_sequencing
toccata_preview_manifest = record verified_tn12_manifest {
  name = "toccata-preview";
  bytecode_emission_allowed = true;
  features = set_sequencing (map preview_spec verified_tn12_manifest.features);
}

unfoldable pub future_mainnet_manifest : ProtocolManifest
unfolding verified_tn12_manifest
future_mainnet_manifest = record verified_tn12_manifest {
  name = "future-mainnet";
  network = Network.mainnet;
  bytecode_emission_allowed = false;
}
