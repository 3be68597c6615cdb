-- ===== src/Codegen/Encode.antt =====
-- compiler/codegen/src/backends/toccata.rs: the bytes of an instruction and of a spend.
use kaspa_script.Prelude.{ℕ, List, [], ◌∷◌, ◌++◌}
use kaspa_script.Prelude.Fault.{ok, err, ◌>>=◌}
use kaspa_script.Ir.Instruction.{Instruction, InstructionKind}
use kaspa_script.Codegen.Target.{
  CodegenError, GroundingRecord, unsupported_grounding, empty_bytecode,
}
use kaspa_script.Codegen.Grounding.{record_for_instruction}
use kaspa_script.Codegen.Opcode
use kaspa_script.Codegen.Push.{Code, encode_push, encode_u64, encode_indexed}
use kaspa_script.Syntax.Token.{Span}

-- `CodegenError::UnsupportedGrounding` of a record
abbrev pub unsupported_error : GroundingRecord → CodegenError
unsupported_error r = unsupported_grounding r.id r.citation r.note

unfoldable pub refuse : InstructionKind → Code
unfolding record_for_instruction
refuse k = err (unsupported_error (record_for_instruction k))

abbrev emit : List ℕ → ℕ → Code
emit out opcode = ok (out ++ opcode ∷ [])

unfoldable pub encode_kind : InstructionKind → Span → List ℕ → Code
unfolding encode_push encode_u64 encode_indexed refuse
encode_kind (InstructionKind.push value) span out = encode_push value span out
encode_kind InstructionKind.drop span out = emit out Opcode.op_drop
encode_kind InstructionKind.dup span out = emit out Opcode.op_dup
encode_kind (InstructionKind.input_value i) span out = encode_indexed Opcode.op_txinputamount i out
encode_kind (InstructionKind.input_script i) span out = encode_indexed Opcode.op_txinputspk i out
encode_kind (InstructionKind.output_value i) span out =
    encode_indexed Opcode.op_txoutputamount i out
encode_kind (InstructionKind.output_script i) span out = encode_indexed Opcode.op_txoutputspk i out
encode_kind InstructionKind.output_count span out = emit out Opcode.op_txoutputcount
encode_kind InstructionKind.input_count span out = emit out Opcode.op_txinputcount
encode_kind (InstructionKind.check_sig _) span out = emit out Opcode.op_checksig
encode_kind (InstructionKind.check_multi_sig _ key_count) span out = do
  out' ← encode_u64 key_count span out
  emit out' Opcode.op_checkmultisig
encode_kind (InstructionKind.check_lock_height height) span out = do
  out' ← encode_u64 height span out
  ok (out' ++ Opcode.op_checklocktimeverify ∷ Opcode.op_1 ∷ [])
encode_kind (InstructionKind.check_lock_time height) span out = do
  out' ← encode_u64 height span out
  ok (out' ++ Opcode.op_checklocktimeverify ∷ Opcode.op_1 ∷ [])
encode_kind InstructionKind.check_lock_height_from_stack span out =
    ok (out ++ Opcode.op_checklocktimeverify ∷ Opcode.op_1 ∷ [])
encode_kind InstructionKind.check_lock_time_from_stack span out =
    ok (out ++ Opcode.op_checklocktimeverify ∷ Opcode.op_1 ∷ [])
encode_kind InstructionKind.sha256 span out = emit out Opcode.op_sha256
encode_kind InstructionKind.blake2b span out = emit out Opcode.op_blake2b
encode_kind InstructionKind.verify span out = emit out Opcode.op_verify
encode_kind InstructionKind.equal span out = emit out Opcode.op_equal
encode_kind InstructionKind.not_equal span out = emit out Opcode.op_numnotequal
encode_kind InstructionKind.greater_than span out = emit out Opcode.op_greaterthan
encode_kind InstructionKind.greater_than_or_equal span out = emit out Opcode.op_greaterthanorequal
encode_kind InstructionKind.less_than span out = emit out Opcode.op_lessthan
encode_kind InstructionKind.less_than_or_equal span out = emit out Opcode.op_lessthanorequal
encode_kind InstructionKind.and span out = emit out Opcode.op_booland
encode_kind InstructionKind.or span out = emit out Opcode.op_boolor
encode_kind InstructionKind.negation span out = emit out Opcode.op_not
encode_kind InstructionKind.add span out = emit out Opcode.op_add
encode_kind InstructionKind.sub span out = emit out Opcode.op_sub
encode_kind InstructionKind.covenant_depth span out = refuse InstructionKind.covenant_depth
encode_kind InstructionKind.covenant_id span out = refuse InstructionKind.covenant_id
encode_kind InstructionKind.zk_verify_groth16 span out = refuse InstructionKind.zk_verify_groth16
encode_kind InstructionKind.zk_verify_risc_zero span out =
    refuse InstructionKind.zk_verify_risc_zero
encode_kind InstructionKind.sequencing_commitment span out =
    refuse InstructionKind.sequencing_commitment
encode_kind InstructionKind.hash160 span out = refuse InstructionKind.hash160
encode_kind InstructionKind.check_hash_preimage span out =
    refuse InstructionKind.check_hash_preimage
encode_kind InstructionKind.mul span out = refuse InstructionKind.mul
encode_kind InstructionKind.div span out = refuse InstructionKind.div
encode_kind InstructionKind.modulo span out = refuse InstructionKind.modulo

unfoldable pub encode_instruction : Instruction → List ℕ → Code
unfolding encode_kind
encode_instruction i out = encode_kind i.kind i.span out

unfoldable pub encode_instruction_sequence_into : List Instruction → List ℕ → Code
encode_instruction_sequence_into [] out = ok out
encode_instruction_sequence_into (i ∷ is) out =
    encode_instruction i out >>= encode_instruction_sequence_into is

unfoldable pub compile_instruction_sequence : List Instruction → Code
unfolding encode_instruction_sequence_into
compile_instruction_sequence is = encode_instruction_sequence_into is []

-- A spend body as an executable script: the closing `OP_1` leaves the final true value.
unfoldable pub compile_spend_script : List Instruction → Code
unfolding compile_instruction_sequence
compile_spend_script [] = err empty_bytecode
compile_spend_script (i ∷ is) = do
  bytecode ← compile_instruction_sequence (i ∷ is)
  ok (bytecode ++ Opcode.op_1 ∷ [])
