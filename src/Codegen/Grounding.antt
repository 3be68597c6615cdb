-- ===== src/Codegen/Grounding.antt =====
-- compiler/codegen/src/grounding.rs: the grounding record of an instruction and of a KIP.
pub mod Records
pub mod Opcodes
pub mod Registry
pub mod Required
use Prim.Native.String
use text.Mathlib.Text.{◌==◌}
use kaspa_script.Prelude.{ℕ, String, List, [], ◌∷◌, Option, none, some, if◌then◌else◌}
use kaspa_script.Prelude.Text.{decimal}
use kaspa_script.Codegen.Target.{GroundingRecord, backend_opcode}
use kaspa_script.Ir.Instruction
use kaspa_script.Ir.Instruction.{InstructionKind, Value}
use Records.{unsupported_record}
use Opcodes.{backend_opcode_records}
use Registry.{kip_records}

-- `records.into_iter().find(|record| record.id == id)`
unfoldable pub find_record : String → List GroundingRecord → Option GroundingRecord
find_record i [] = none
find_record i (r ∷ rs) = if r.id == i then some r else find_record i rs

unfoldable pub or_unknown : Option GroundingRecord → GroundingRecord
or_unknown (some r) = r
or_unknown none =
    unsupported_record "unknown-opcode" backend_opcode "compiler/ir/src/instructions.rs"
      "instruction has no source-grounding record"
      "backend refuses instructions without source grounding"

unfoldable pub opcode_record : String → GroundingRecord
unfolding find_record or_unknown backend_opcode_records
opcode_record i = or_unknown (find_record i backend_opcode_records)

-- The id under which an instruction is looked up.
unfoldable pub instruction_id : InstructionKind → String
instruction_id (InstructionKind.push (Value.integer _)) = "push-int"
instruction_id (InstructionKind.push (Value.bool _)) = "push-bool"
instruction_id (InstructionKind.push _) = "push-bytes"
instruction_id InstructionKind.drop = "drop"
instruction_id InstructionKind.dup = "dup"
instruction_id (InstructionKind.input_value _) = "inputvalue"
instruction_id (InstructionKind.input_script _) = "inputscript"
instruction_id (InstructionKind.output_value _) = "outputvalue"
instruction_id (InstructionKind.output_script _) = "outputscript"
instruction_id InstructionKind.output_count = "outputcount"
instruction_id InstructionKind.input_count = "inputcount"
instruction_id (InstructionKind.check_sig _) = "checksig"
instruction_id (InstructionKind.check_multi_sig _ _) = "checkmultisig"
instruction_id (InstructionKind.check_lock_height _) = "checklocktimeverify"
instruction_id (InstructionKind.check_lock_time _) = "checklocktimeverify"
instruction_id InstructionKind.check_lock_height_from_stack = "checklocktimeverify"
instruction_id InstructionKind.check_lock_time_from_stack = "checklocktimeverify"
instruction_id InstructionKind.covenant_depth = "covenantid-depth"
instruction_id InstructionKind.covenant_id = "covenantid"
instruction_id InstructionKind.zk_verify_groth16 = "zk-groth16-verify"
instruction_id InstructionKind.zk_verify_risc_zero = "zk-risczero-verify"
instruction_id InstructionKind.sequencing_commitment = "sequencing-commitment"
instruction_id InstructionKind.sha256 = "sha256"
instruction_id InstructionKind.blake2b = "blake2b"
instruction_id InstructionKind.hash160 = "hash160"
instruction_id InstructionKind.check_hash_preimage = "check-hash-preimage"
instruction_id InstructionKind.verify = "verify"
instruction_id InstructionKind.equal = "equal"
instruction_id InstructionKind.not_equal = "notequal"
instruction_id InstructionKind.less_than = "lessthan"
instruction_id InstructionKind.less_than_or_equal = "lessthanorequal"
instruction_id InstructionKind.greater_than = "greaterthan"
instruction_id InstructionKind.greater_than_or_equal = "greaterthanorequal"
instruction_id InstructionKind.and = "and"
instruction_id InstructionKind.or = "or"
instruction_id InstructionKind.negation = "not"
instruction_id InstructionKind.add = "add"
instruction_id InstructionKind.sub = "sub"
instruction_id InstructionKind.mul = "mul"
instruction_id InstructionKind.div = "div"
instruction_id InstructionKind.modulo = "mod"

unfoldable pub record_for_instruction : InstructionKind → GroundingRecord
unfolding opcode_record instruction_id
record_for_instruction k = opcode_record (instruction_id k)

unfoldable pub record_for_kip : ℕ → Option GroundingRecord
unfolding find_record decimal kip_records
record_for_kip kip = find_record (String.◌++◌ "kip-" (decimal kip)) kip_records
