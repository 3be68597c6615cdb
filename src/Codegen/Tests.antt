-- ===== src/Codegen/Tests.antt =====
-- The backend on small programs.
use kaspa_script.Prelude.{
  map, String, ℕ, ◌≡◌, ◌⊎◌, ◌↔◌, ◌<◌, ◌≤◌, All, false, refl, List, [], ◌∷◌, ◌++◌, ◌^◌, ltb→lt, some,
  none,
}
use kaspa_script.Prelude.Fault.{Result, ok, err}
use kaspa_script.Prelude.Text.{Distinct}
use kaspa_script.Syntax.Token.{Span, TypeName}
use kaspa_script.Syntax.Ast.{Ident, Expr, BinaryOp, require, Program}
use kaspa_script.Semantic.Analyze
use kaspa_script.Ir.Emit.{IrError}
use kaspa_script.Ir.LowerProgram.{lower_stmt, lower_spend, lower_contract, lower_program}
use kaspa_script.Ir.Lower.{lower_expr}
use kaspa_script.Codegen.Compile.Interface.{
  described_outline, source_outline, outline-compile_toccata,
}
use kaspa_script.Ir.Instruction.{Instruction, InstructionKind, Value, instr}
use kaspa_script.Ir.Program.{IrProgram}
use kaspa_script.Codegen.Target.{
  Target, verified_tn12, tn10_toccata, verified, unsupported, CodegenError, value_too_large, as_str,
  parse, allows_gated_warnings,
}
use kaspa_script.Codegen.Target.Label.{parse-iff-as_str}
use kaspa_script.Codegen.Push.Range.{Written, encode_u64-by_range}
use kaspa_script.Codegen.Grounding.{record_for_kip, record_for_instruction, instruction_id}
use kaspa_script.Codegen.Support.{Fits, encode_kind-by_status, id-record_for_instruction}
use kaspa_script.Codegen.Compile.{
  CompiledArtifact, collect_instruction_grounding, compile_toccata, verify_artifact,
}
use kaspa_script.Codegen.Compile.Bytecode.{
  program_listing, disassemble-compile_toccata, verify-compile_toccata,
}
use kaspa_script.Codegen.Compile.Warnings.{
  IsAllowedKip, AllowedContracts, ids, compile_toccata-allowed, warnings-compile_toccata_strict,
  warnings-compile_toccata-Distinct,
}
use kaspa_script.Codegen.Push.{script_number, encode_u64}
use kaspa_script.Codegen.Encode.{
  encode_kind, unsupported_error, encode_instruction, encode_instruction_sequence_into,
  compile_instruction_sequence, compile_spend_script,
}
use kaspa_script.Codegen.Disassemble.{disassemble}
use kaspa_script.Codegen.Disassemble.Total.{Ends, disassemble-Ends}
use kaspa_script.Codegen.Listing.Entries.{listing}
use kaspa_script.Codegen.Listing.Program.{disassemble-compile, disassemble-compile_spend_script}
use kaspa_script.Codegen.Number.{Encodes, script_number_lem}

abbrev here : Span
here = record { start = 0; end = 0 }

-- A number of two bytes, an introspection, a comparison.
abbrev sample : List Instruction
sample =
    instr here (InstructionKind.push (Value.integer 300))
    ∷ instr here (InstructionKind.input_value 0)
    ∷ instr here InstructionKind.less_than
    ∷ instr here InstructionKind.verify
    ∷ []

abbrev sample_code : List ℕ
sample_code = 2 ∷ 44 ∷ 1 ∷ 0 ∷ 0xbe ∷ 0x9f ∷ 0x69 ∷ []

compile-sample : compile_instruction_sequence sample ≡ ok sample_code
unfolding compile_instruction_sequence encode_instruction
compile-sample = refl

disassemble-compile_example : disassemble sample_code ≡ ok (listing sample)
disassemble-compile_example = disassemble-compile sample compile-sample (ltb→lt 7 (2 ^ 64) refl)

script-sample : compile_spend_script sample ≡ ok (sample_code ++ 0x51 ∷ [])
unfolding compile_spend_script encode_instruction
script-sample = refl

disassemble-compile_spend_script_example :
    disassemble (sample_code ++ 0x51 ∷ []) ≡ ok (listing sample ++ "OP_1" ∷ [])
disassemble-compile_spend_script_example =
    disassemble-compile_spend_script sample script-sample (ltb→lt 8 (2 ^ 64) refl)

-- A number whose top byte has its high bit set.
script_number_lem_example : Encodes (script_number 200) 200
script_number_lem_example = script_number_lem 200 (ltb→lt 200 (2 ^ 63) refl)

strict_target : allows_gated_warnings verified_tn12 ≡ false
unfolding allows_gated_warnings
strict_target = refl

abbrev value_or : {E A : Type 0} → Result E A → A → A
value_or (ok a) b = a
value_or (err e) b = b

abbrev digest : List ℕ → List ℕ
digest = λ bytes. bytes

-- A program of one spend, with the KIPs it needs.
abbrev one_spend : List ℕ → IrProgram (Unit {0})
one_spend kips = record {
  contracts =
      record {
        name = "Vault";
        params = [];
        finality_depth = some 10;
        spends = record { name = "unlock"; params = []; instructions = sample } ∷ [];
      }
      ∷ [];
  kip_requirements = kips;
  application = tt;
}

abbrev empty_artifact : CompiledArtifact (Unit {0})
empty_artifact = record {
  bytecode = [];
  source_hash = [];
  compiler_version = "";
  backend = "";
  target = "";
  finality_depth = none;
  kip_requirements = [];
  warnings = [];
  application = tt;
  contracts = [];
}

abbrev compiled_for : List ℕ → Target → Result CodegenError (CompiledArtifact (Unit {0}))
compiled_for kips target = compile_toccata digest "contract" (one_spend kips) "0.1.0" target

abbrev artifact_for : List ℕ → Target → CompiledArtifact (Unit {0})
artifact_for kips target = value_or (compiled_for kips target) empty_artifact

strict_compiles : compiled_for (10 ∷ []) verified_tn12 ≡ ok (artifact_for (10 ∷ []) verified_tn12)
unfolding compile_toccata record_for_kip collect_instruction_grounding record_for_instruction
    encode_instruction_sequence_into encode_instruction
strict_compiles = refl

-- Two gated KIPs, one of them twice.
gated_compiles :
    compiled_for (15 ∷ 16 ∷ 15 ∷ []) tn10_toccata
    ≡ ok (artifact_for (15 ∷ 16 ∷ 15 ∷ []) tn10_toccata)
unfolding compile_toccata record_for_kip collect_instruction_grounding record_for_instruction
    encode_instruction_sequence_into encode_instruction
gated_compiles = refl

strict_code : (artifact_for (10 ∷ []) verified_tn12).bytecode ≡ sample_code
unfolding compile_toccata record_for_kip collect_instruction_grounding record_for_instruction
    encode_instruction_sequence_into encode_instruction
strict_code = refl

disassemble-compile_toccata_example :
    disassemble (artifact_for (10 ∷ []) verified_tn12).bytecode
    ≡ ok (program_listing (one_spend (10 ∷ [])).contracts)
disassemble-compile_toccata_example =
    disassemble-compile_toccata digest "contract" (one_spend (10 ∷ [])) "0.1.0" verified_tn12
      strict_compiles (rw strict_code (ltb→lt 7 (2 ^ 64) refl))

verify-compile_toccata_example : verify_artifact (artifact_for (10 ∷ []) verified_tn12) ≡ ok tt
verify-compile_toccata_example =
    verify-compile_toccata digest "contract" (one_spend (10 ∷ [])) "0.1.0" verified_tn12
      strict_compiles (rw strict_code (ltb→lt 7 (2 ^ 64) refl)) (rw strict_code (λ h. cc))

compile_toccata-allowed_example :
    All (λ k. IsAllowedKip tn10_toccata (record_for_kip k)) (15 ∷ 16 ∷ 15 ∷ [])
    × AllowedContracts tn10_toccata (one_spend (15 ∷ 16 ∷ 15 ∷ [])).contracts
compile_toccata-allowed_example =
    compile_toccata-allowed digest "contract" (one_spend (15 ∷ 16 ∷ 15 ∷ [])) "0.1.0" tn10_toccata
      gated_compiles

warnings-compile_toccata_strict_example : (artifact_for (10 ∷ []) verified_tn12).warnings ≡ []
warnings-compile_toccata_strict_example =
    warnings-compile_toccata_strict digest "contract" (one_spend (10 ∷ [])) "0.1.0" verified_tn12
      strict_compiles strict_target

warnings-compile_toccata-Distinct_example :
    Distinct (ids (artifact_for (15 ∷ 16 ∷ 15 ∷ []) tn10_toccata).warnings)
warnings-compile_toccata-Distinct_example =
    warnings-compile_toccata-Distinct digest "contract" (one_spend (15 ∷ 16 ∷ 15 ∷ [])) "0.1.0"
      tn10_toccata gated_compiles

-- A refused instruction.
encode_kind-by_status_example :
    (((record_for_instruction InstructionKind.hash160).status ≡ verified)
      × Fits (encode_kind InstructionKind.hash160 here []))
    ⊎ (((record_for_instruction InstructionKind.hash160).status ≡ unsupported)
        × (encode_kind InstructionKind.hash160 here []
            ≡ err (unsupported_error (record_for_instruction InstructionKind.hash160))))
encode_kind-by_status_example = encode_kind-by_status InstructionKind.hash160 here []

id-record_for_instruction_example :
    (record_for_instruction InstructionKind.dup).id ≡ instruction_id InstructionKind.dup
id-record_for_instruction_example = id-record_for_instruction InstructionKind.dup

-- The first number that is refused.
encode_u64-by_range_example :
    ((2 ^ 63 < 2 ^ 63) × Written [] (encode_u64 (2 ^ 63) here []))
    ⊎ ((2 ^ 63 ≤ 2 ^ 63)
        × (encode_u64 (2 ^ 63) here []
            ≡ err (
                value_too_large here
                  "positive script number exceeds the native signed 64-bit range")))
encode_u64-by_range_example = encode_u64-by_range (2 ^ 63) here []

parse-iff-as_str_example :
    (parse "tn10-toccata" ≡ some tn10_toccata) ↔ ("tn10-toccata" ≡ as_str tn10_toccata)
parse-iff-as_str_example = parse-iff-as_str "tn10-toccata" tn10_toccata

-- A push of three bytes that has two.
disassemble-Ends_example : Ends (disassemble (3 ∷ 1 ∷ 2 ∷ []))
disassemble-Ends_example = disassemble-Ends (3 ∷ 1 ∷ 2 ∷ [])

abbrev named : String → Ident
named name = record { name = name; span = here }

-- `require output_count == 1`
abbrev vault : Program
vault = record {
  contracts =
      record {
        name = named "Vault";
        params = record { name = named "owner"; ty = TypeName.public_key; span = here } ∷ [];
        finality_depth = some 10;
        spends =
            record {
              name = named "unlock";
              params = record { name = named "sig"; ty = TypeName.signature; span = here } ∷ [];
              body =
                  require
                    (Expr.binary (Expr.ident (named "output_count")) BinaryOp.equal
                      (Expr.integer 1 here) here)
                    here
                  ∷ [];
              span = here;
            }
            ∷ [];
        span = here;
      }
      ∷ [];
}

abbrev lowered : Result IrError (IrProgram (Unit {0}))
lowered = lower_program (λ _. tt) vault (10 ∷ []) "vault.ks"

abbrev vault_ir : IrProgram (Unit {0})
vault_ir = value_or lowered (one_spend [])

lowers : lowered ≡ ok vault_ir
unfolding lower_program lower_contract lower_spend lower_stmt lower_expr
lowers = refl

abbrev vault_artifact : CompiledArtifact (Unit {0})
vault_artifact =
    value_or (compile_toccata digest "contract" vault_ir "0.1.0" verified_tn12) empty_artifact

vault_compiles :
    compile_toccata digest "contract" vault_ir "0.1.0" verified_tn12 ≡ ok vault_artifact
unfolding compile_toccata record_for_kip collect_instruction_grounding record_for_instruction
    encode_instruction_sequence_into encode_instruction lower_program lower_contract lower_spend
    lower_stmt lower_expr
vault_compiles = refl

outline-compile_toccata_example :
    (map described_outline vault_artifact.contracts ≡ map source_outline vault.contracts)
    × (vault_artifact.finality_depth ≡ Analyze.max_finality_depth vault.contracts)
    × (vault_artifact.kip_requirements ≡ 10 ∷ [])
outline-compile_toccata_example =
    outline-compile_toccata (λ _. tt) vault (10 ∷ []) "vault.ks" digest "contract" "0.1.0"
      verified_tn12 lowers vault_compiles
