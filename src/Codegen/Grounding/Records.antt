-- ===== src/Codegen/Grounding/Records.antt =====
-- compiler/codegen/src/grounding.rs: the constructors of grounding records.
use kaspa_script.Prelude.{ℕ, String, ◌==◌, if◌then◌else◌}
use kaspa_script.Codegen.Target.{
  GroundingCategory, GroundingRecord, backend_opcode, builtin, kip_reference, verified, gated,
  unsupported,
}

abbrev pub verified_record : String → GroundingCategory → String → String → String → GroundingRecord
verified_record i c p d n = record {
  id = i;
  category = c;
  status = verified;
  citation = record { path = p; detail = d };
  note = n;
}

abbrev pub gated_record : String → GroundingCategory → String → String → String → GroundingRecord
gated_record i c p d n = record {
  id = i;
  category = c;
  status = gated;
  citation = record { path = p; detail = d };
  note = n;
}

abbrev pub unsupported_record :
    String → GroundingCategory → String → String → String → GroundingRecord
unsupported_record i c p d n = record {
  id = i;
  category = c;
  status = unsupported;
  citation = record { path = p; detail = d };
  note = n;
}

abbrev pub verified_opcode : String → String → GroundingRecord
verified_opcode i d =
    verified_record i backend_opcode "docs/kaspa-source-audit.md" d
      "opcode byte mapping is verified against pinned Kaspa txscript sources"

abbrev pub unsupported_opcode : String → String → GroundingRecord
unsupported_opcode i d =
    unsupported_record i backend_opcode "docs/kaspa-source-audit.md" d
      "backend emission is unsupported until KaspaScript lowering and tests verify it"

abbrev pub verified_builtin : String → String → String → GroundingRecord
verified_builtin i p d =
    verified_record i builtin p d "builtin behavior is source-grounded and covered by tests"

abbrev pub gated_builtin : String → String → GroundingRecord
gated_builtin i n =
    gated_record i builtin "compiler/semantic/src/checker.rs"
      "builtin is recognized by semantic analysis" n

abbrev pub unsupported_builtin : String → String → GroundingRecord
unsupported_builtin i n =
    unsupported_record i builtin "compiler/semantic/src/checker.rs"
      "builtin has no verified backend emission" n

abbrev pub kip_id : ℕ → String
kip_id k =
    if k == 10
    then "kip-10"
    else if k == 15
    then "kip-15"
    else if k == 16
    then "kip-16"
    else if k == 17
    then "kip-17"
    else if k == 20
    then "kip-20"
    else if k == 21
    then "kip-21"
    else "kip-unknown"

abbrev pub verified_kip : ℕ → String → String → GroundingRecord
verified_kip k p n =
    verified_record (kip_id k) kip_reference p
      "KIP source is present in the pinned Kaspa KIP repository" n

abbrev pub gated_kip : ℕ → String → String → GroundingRecord
gated_kip k p n =
    gated_record (kip_id k) kip_reference p
      "KIP source is recognized but not fully enabled for KaspaScript bytecode emission" n
