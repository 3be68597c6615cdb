-- ===== src/Protocol/Tests.antt =====
-- The manifests of the targets.
use kaspa_script.Prelude.{◌≡◌, ◌↔◌, refl, true, List, [], ◌∷◌, All}
use kaspa_script.Prelude.Fault.{ok}
use kaspa_script.Protocol.Manifest.{ProtocolFeature, feature_eq, supports, validate_requirements}
use kaspa_script.Protocol.Targets.{
  toccata_preview_manifest, verified_tn12_manifest, future_mainnet_manifest,
}
use kaspa_script.Protocol.Requirements.{
  OneEach, Checked, validate_requirements-Checked, validate_requirements-iff-supports,
}

abbrev wanted : List ProtocolFeature
wanted =
    ProtocolFeature.base_script ∷ ProtocolFeature.covenant_ids
    ∷ ProtocolFeature.sequencing_commitments ∷ []

tn12_once : OneEach verified_tn12_manifest.features
unfolding verified_tn12_manifest feature_eq
tn12_once = (refl, (refl, (refl, (refl, (refl, tt)))))

preview_once : OneEach toccata_preview_manifest.features
unfolding toccata_preview_manifest feature_eq
preview_once = (refl, (refl, (refl, (refl, (refl, tt)))))

mainnet_once : OneEach future_mainnet_manifest.features
unfolding future_mainnet_manifest feature_eq
mainnet_once = (refl, (refl, (refl, (refl, (refl, tt)))))

validate_requirements-Checked_example :
    Checked toccata_preview_manifest wanted (validate_requirements toccata_preview_manifest wanted)
validate_requirements-Checked_example =
    validate_requirements-Checked toccata_preview_manifest wanted

validate_requirements-iff-supports_example :
    (validate_requirements verified_tn12_manifest wanted ≡ ok tt)
    ↔ All (λ r. supports verified_tn12_manifest r ≡ true) wanted
validate_requirements-iff-supports_example =
    validate_requirements-iff-supports verified_tn12_manifest wanted tn12_once
