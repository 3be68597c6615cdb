-- ===== src/Kernel/Tests.antt =====
-- A vault on the main network with evidence from a pre-activation release, and a fee.
use kaspa_script.Prelude.{◌≡◌, ◌⊎◌, refl, ◌<◌, ◌≤◌, ◌*◌, ◌^◌, false, none, [], ◌∷◌}
use kaspa_script.Prelude.Fault.{ok}
use kaspa_script.Kernel.Model.{
  Network, KernelFeature, EvidenceLevel, SourceEvidence, Transition, TransitionKind, ProofVerifier,
  ContractBlueprint,
}
use kaspa_script.Kernel.Fees.{
  default_policy, minimum_standard_fee, minimum_standard_fee-covers, checked_mul, max,
}
use kaspa_script.Kernel.Readiness.{readiness_report, same_network, proves_mainnet_activation}
use kaspa_script.Kernel.Ready.{ready-readiness_report}

abbrev release : SourceEvidence
release = record {
  label = "release";
  url = "";
  audit_date = "";
  network = Network.unknown;
  level = EvidenceLevel.mainnet_pre_activation;
  features = KernelFeature.covenant_ids ∷ [];
  note = "";
}

abbrev withdraw : Transition
withdraw = record {
  name = "withdraw";
  kind = TransitionKind.spend;
  consumes = [];
  creates = [];
  signers = "owner" ∷ [];
  requirements =
      record {
        feature = KernelFeature.covenant_ids;
        minimum_evidence = EvidenceLevel.merged_code;
        reason = "";
      }
      ∷ [];
  proof = record { verifier = ProofVerifier.none_verifier; public_inputs = []; payload_hint = "" };
  wallet_warnings = [];
  semantics = none;
}

abbrev vault : ContractBlueprint
vault = record {
  name = "Vault";
  network = Network.mainnet;
  state = [];
  transitions = withdraw ∷ [];
  evidence = release ∷ [];
}

ready-readiness_report_example : (readiness_report vault).ready ≡ false
unfolding same_network proves_mainnet_activation
ready-readiness_report_example = ready-readiness_report vault

fee_is : minimum_standard_fee default_policy 5000 1000 ≡ ok 500000
unfolding minimum_standard_fee checked_mul max
fee_is = refl

minimum_standard_fee-covers_example :
    (500000 < 2 ^ 64)
    × (5000 * 100 ≤ 500000)
    × (1000 * 2 * 100 ≤ 500000)
    × ((500000 ≡ 5000 * 100) ⊎ (500000 ≡ 1000 * 2 * 100))
minimum_standard_fee-covers_example =
    minimum_standard_fee-covers default_policy 5000 1000 500000 fee_is
