-- ===== src/Codegen/Grounding/Registry.antt =====
-- compiler/codegen/src/grounding.rs: the other registries, and the list of all records.
use kaspa_script.Prelude.{List, [], ◌∷◌, ◌++◌, map}
use kaspa_script.Codegen.Target.{
  GroundingRecord, transaction_assumption, artifact_field, target_gate,
}
use kaspa_script.Codegen.Grounding.Records.{
  verified_builtin, gated_builtin, unsupported_builtin, verified_kip, gated_kip, verified_record,
  gated_record,
}
use kaspa_script.Codegen.Grounding.Opcodes.{backend_opcode_records}

unfoldable pub builtin_records : List GroundingRecord
builtin_records =
    verified_builtin "finality_depth" "compiler/parser/src/parser.rs"
      "finality_depth is extracted from params into Contract.finality_depth"
    ∷ verified_builtin "multisig" "compiler/semantic/src/checker.rs"
        "multisig arity and static threshold checks are implemented locally; backend emits OpCheckMultiSig"
    ∷ verified_builtin "input" "docs/kaspa-source-audit.md"
        "input(n).value/script lower to KIP-10 OpTxInputAmount/OpTxInputSpk"
    ∷ verified_builtin "output" "docs/kaspa-source-audit.md"
        "output(n).value/script lower to KIP-10 OpTxOutputAmount/OpTxOutputSpk"
    ∷ verified_builtin "input_count" "docs/kaspa-source-audit.md"
        "input_count lowers to KIP-10 OpTxInputCount"
    ∷ verified_builtin "output_count" "docs/kaspa-source-audit.md"
        "output_count lowers to KIP-10 OpTxOutputCount"
    ∷ verified_builtin "continuation" "compiler/ir/src/gen.rs"
        "continuation(name, output(n)) records a named successor output and lowers to an output-count existence check"
    ∷ gated_builtin "block"
        "block.height/time syntax is recognized; parameterized lock values are still emitted as script-template data"
    ∷ unsupported_builtin "covenant_id"
        "upstream Toccata sources define covenant ID accessors; KaspaScript lowering is not implemented"
    ∷ unsupported_builtin "covenant"
        "upstream Toccata sources define covenant bindings; KaspaScript transaction builder support is not implemented"
    ∷ unsupported_builtin "sequencing"
        "upstream Toccata sources define OpChainblockSeqCommit; KaspaScript witness/depth lowering is not implemented"
    ∷ unsupported_builtin "zk_verify"
        "upstream Toccata sources define OpZkPrecompile; KaspaScript proof artifact lowering is not implemented"
    ∷ verified_builtin "sha256" "docs/kaspa-source-audit.md" "OpSHA256 is present at 0xa8"
    ∷ verified_builtin "blake2b" "docs/kaspa-source-audit.md" "OpBlake2b is present at 0xaa"
    ∷ unsupported_builtin "hash160" "no Hash160 opcode is present in pinned txscript sources"
    ∷ []

unfoldable pub kip_records : List GroundingRecord
kip_records =
    verified_kip 10 "docs/kaspa-source-audit.md"
      "KIP-10 is present in kaspanet/kips and marked Active; rusty-kaspa has matching txscript opcodes"
    ∷ verified_kip 15 "docs/kaspa-source-audit.md"
        "KIP-15 is present in kaspanet/kips and marked Active as a block-header commitment"
    ∷ gated_kip 16 "docs/kaspa-source-audit.md"
        "KIP-16 and OpZkPrecompile exist upstream; KaspaScript proof lowering remains gated"
    ∷ gated_kip 17 "docs/kaspa-source-audit.md"
        "KIP-17 and expanded Toccata opcodes exist upstream; KaspaScript emits only the older KIP-10 subset"
    ∷ gated_kip 20 "docs/kaspa-source-audit.md"
        "KIP-20 and covenant ID accessors exist upstream; transaction-output covenant bindings remain gated"
    ∷ gated_kip 21 "docs/kaspa-source-audit.md"
        "KIP-21 and OpChainblockSeqCommit exist upstream; witness/depth lowering remains gated"
    ∷ []

unfoldable pub transaction_assumption_records : List GroundingRecord
transaction_assumption_records =
    verified_record "sdk-finality-depth-enforcement" transaction_assumption "sdk/src/lib.rs"
      "build_spend_tx rejects UTXOs below artifact.finality_depth confirmations"
      "local SDK behavior is tested; no Kaspa RPC submission source is present"
    ∷ verified_record "sdk-no-hidden-fee" transaction_assumption "sdk/src/lib.rs"
        "build_spend_tx routes the full spend value to the contract output and creates no treasury output"
        "hidden treasury fee injection has been removed"
    ∷ gated_record "sdk-transaction-builder-preview" transaction_assumption "sdk/src/lib.rs"
        "Transaction is a deterministic SDK model, not a rusty-kaspa Transaction"
        "real Kaspa transaction construction/submission remains preview-gated"
    ∷ []

unfoldable pub target_gate_records : List GroundingRecord
target_gate_records =
    verified_record "target-verified-tn12" target_gate "compiler/codegen/src/lib.rs"
      "Target::VerifiedTn12 rejects gated and unsupported records"
      "verified TN12 emits only behavior backed by pinned sources"
    ∷ verified_record "target-toccata-preview" target_gate "compiler/codegen/src/lib.rs"
        "Target::ToccataPreview warns for gated records and rejects unsupported records"
        "preview behavior is explicit in artifact warnings"
    ∷ verified_record "target-future-mainnet" target_gate "compiler/codegen/src/lib.rs"
        "Target::FutureMainnet rejects gated and unsupported records"
        "future mainnet emission stays locked until sources are pinned"
    ∷ []

unfoldable pub artifact_field_records : List GroundingRecord
artifact_field_records =
    map
      (λ field.
        verified_record field artifact_field "compiler/codegen/src/lib.rs"
          "CompiledArtifact field is defined in the local codegen crate"
          "artifact field is locally defined and covered by artifact metadata tests")
      ("bytecode" ∷ "source_hash" ∷ "compiler_version" ∷ "backend" ∷ "target" ∷ "finality_depth"
        ∷ "kip_requirements" ∷ "warnings" ∷ [])

unfoldable pub all_records : List GroundingRecord
unfolding backend_opcode_records builtin_records kip_records transaction_assumption_records
    artifact_field_records target_gate_records
all_records =
    backend_opcode_records
    ++ (builtin_records
        ++ (kip_records
            ++ (transaction_assumption_records ++ (artifact_field_records ++ target_gate_records))))
