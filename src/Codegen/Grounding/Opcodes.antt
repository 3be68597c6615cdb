-- ===== src/Codegen/Grounding/Opcodes.antt =====
-- compiler/codegen/src/grounding.rs: the registry of the backend's opcodes.
use kaspa_script.Prelude.{List, [], ◌∷◌}
use kaspa_script.Codegen.Target.{GroundingRecord}
use kaspa_script.Codegen.Grounding.Records.{verified_opcode, unsupported_opcode}

unfoldable pub backend_opcode_records : List GroundingRecord
backend_opcode_records =
    verified_opcode "push-int" "canonical script-number pushes via OP_0, OP_1..OP_16, OP_DATA_N"
    ∷ verified_opcode "push-bool" "boolean pushes via OP_0 and OP_1"
    ∷ verified_opcode "push-bytes" "canonical pushdata OP_DATA_N/OP_PUSHDATA_N"
    ∷ verified_opcode "drop" "OpDrop (0x75)"
    ∷ verified_opcode "dup" "OpDup (0x76)"
    ∷ verified_opcode "equal" "OpEqual (0x87)"
    ∷ verified_opcode "verify" "OpVerify (0x69)"
    ∷ verified_opcode "checksig" "OpCheckSig (0xac)"
    ∷ verified_opcode "checkmultisig" "OpCheckMultiSig (0xae)"
    ∷ verified_opcode "checklocktimeverify" "OpCheckLockTimeVerify (0xb0)"
    ∷ verified_opcode "add" "OpAdd (0x93)"
    ∷ verified_opcode "sub" "OpSub (0x94)"
    ∷ unsupported_opcode "mul"
        "OpMul exists at 0x95; current Toccata sources enable it behind covenants_enabled"
    ∷ unsupported_opcode "div"
        "OpDiv exists at 0x96; current Toccata sources enable it behind covenants_enabled"
    ∷ unsupported_opcode "mod"
        "OpMod exists at 0x97; current Toccata sources enable it behind covenants_enabled"
    ∷ verified_opcode "lessthan" "OpLessThan (0x9f)"
    ∷ verified_opcode "lessthanorequal" "OpLessThanOrEqual (0xa1)"
    ∷ verified_opcode "greaterthan" "OpGreaterThan (0xa0)"
    ∷ verified_opcode "greaterthanorequal" "OpGreaterThanOrEqual (0xa2)"
    ∷ verified_opcode "not" "OpNot (0x91)"
    ∷ verified_opcode "and" "OpBoolAnd (0x9a)"
    ∷ verified_opcode "or" "OpBoolOr (0x9b)"
    ∷ verified_opcode "notequal" "OpNumNotEqual (0x9e)"
    ∷ verified_opcode "sha256" "OpSHA256 (0xa8)"
    ∷ unsupported_opcode "hash160" "no Hash160 opcode is present; 0xa9 is OpCheckMultiSigECDSA"
    ∷ verified_opcode "blake2b" "OpBlake2b (0xaa)"
    ∷ verified_opcode "inputvalue" "OpTxInputAmount (0xbe), KIP-10"
    ∷ verified_opcode "inputscript" "OpTxInputSpk (0xbf), KIP-10"
    ∷ verified_opcode "outputvalue" "OpTxOutputAmount (0xc2), KIP-10"
    ∷ verified_opcode "outputscript" "OpTxOutputSpk (0xc3), KIP-10"
    ∷ verified_opcode "inputcount" "OpTxInputCount (0xb3), KIP-10"
    ∷ verified_opcode "outputcount" "OpTxOutputCount (0xb4), KIP-10"
    ∷ unsupported_opcode "covenantid"
        "current Toccata sources define covenant ID accessors; KaspaScript lowering is not implemented"
    ∷ unsupported_opcode "covenantid-depth"
        "no upstream covenant depth opcode or KaspaScript depth lowering is implemented"
    ∷ unsupported_opcode "zk-groth16-verify"
        "current Toccata sources define OpZkPrecompile tag 0x20; KaspaScript stack ABI lowering is not implemented"
    ∷ unsupported_opcode "zk-risczero-verify"
        "current Toccata sources define OpZkPrecompile tag 0x21; KaspaScript stack ABI lowering is not implemented"
    ∷ unsupported_opcode "sequencing-commitment"
        "current Toccata sources define OpChainblockSeqCommit; KaspaScript witness/depth lowering is not implemented"
    ∷ unsupported_opcode "check-hash-preimage"
        "no dedicated hash-preimage opcode is present in pinned sources"
    ∷ []
