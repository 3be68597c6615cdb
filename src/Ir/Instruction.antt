-- ===== src/Ir/Instruction.antt =====
-- compiler/ir/src/instructions.rs and types.rs: the opcode-agnostic instructions.
use kaspa_script.Prelude.{ℕ, String, Bool, List}
use kaspa_script.Syntax.Token.{Span, TypeName}

-- A `u8` is a native ℕ; bytes come from `Vec<u8>`.
pub data Value : Type 0 where
  integer : ℕ → Value
  bool : Bool → Value
  bytes : List ℕ → Value
  string : String → Value
  symbol : String → Value
  type : TypeName → Value

pub data InstructionKind : Type 0 where
  push : Value → InstructionKind
  drop dup : InstructionKind
  input_value input_script output_value output_script : ℕ → InstructionKind
  output_count input_count : InstructionKind
  -- the key slot
  check_sig : ℕ → InstructionKind
  -- the required signatures, and the number of keys
  check_multi_sig : ℕ → ℕ → InstructionKind
  check_lock_height check_lock_time : ℕ → InstructionKind
  check_lock_height_from_stack check_lock_time_from_stack : InstructionKind
  covenant_depth covenant_id zk_verify_groth16 zk_verify_risc_zero : InstructionKind
  sequencing_commitment sha256 blake2b hash160 check_hash_preimage verify : InstructionKind
  equal not_equal less_than less_than_or_equal greater_than greater_than_or_equal : InstructionKind
  and or negation add sub mul div modulo : InstructionKind

pub record Instruction : Type 0 where
  pub span : Span
  pub kind : InstructionKind

abbrev pub instr : Span → InstructionKind → Instruction
instr s k = record { span = s; kind = k }
