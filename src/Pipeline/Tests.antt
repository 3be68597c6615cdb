-- ===== src/Pipeline/Tests.antt =====
-- A source file, from its raw tokens to an artifact.
use kaspa_script.Prelude.{◌≡◌, ◌<◌, ◌^◌, refl, [], map, length, All, arith}
use kaspa_script.Prelude.Text.{Distinct}
use kaspa_script.Syntax.Ast.{Program}
use kaspa_script.Semantic.Analyze.{Analysis}
use kaspa_script.Semantic.SpendMet.{Ranged}
use kaspa_script.Semantic.Accepted.{AcceptedContract}
use kaspa_script.Parser.Ends.Programs.{ProgramFits}
use kaspa_script.Ir.Program.{IrProgram}
use kaspa_script.Ir.LowerProgram.{lower_contract, lower_spend, lower_stmt}
use kaspa_script.Ir.Lower.{lower_expr}
use kaspa_script.Codegen.Grounding.{record_for_instruction}
use kaspa_script.Codegen.Encode.{encode_instruction_sequence_into, encode_instruction}
use kaspa_script.Codegen.Disassemble.{disassemble}
use kaspa_script.Codegen.Compile.Bytecode.{program_listing}
use kaspa_script.Prelude.Fault.{Result, ok}
use kaspa_script.Parser.Expressions.{integer_of}
use kaspa_script.Parser.Tests.{vault_lexer}
use kaspa_script.Application.Model.{ApplicationModel}
use kaspa_script.Codegen.Target.{Target, CodegenError}
use kaspa_script.Codegen.Compile.{CompiledArtifact, collect_instruction_grounding}
use kaspa_script.Pipeline.Files.{Fuelled, compile_file_for_target}
use kaspa_script.Pipeline.Compiled.{Lowered, compile_file_correct}

-- No text stands for a string here, and the digest is empty.
abbrev vault_compiled : Result (Fuelled CodegenError) (CompiledArtifact ApplicationModel)
vault_compiled =
    compile_file_for_target vault_lexer (λ s. s) (λ _. []) "1.0.0" "contract" "vault.ks"
      Target.verified_tn12

vault_artifact : (a : CompiledArtifact ApplicationModel) × (vault_compiled ≡ ok a)
unfolding compile_file_for_target integer_of lower_contract lower_spend lower_stmt lower_expr
    collect_instruction_grounding record_for_instruction encode_instruction_sequence_into
    encode_instruction
vault_artifact = (_, refl)

vault_small : length vault_artifact.0.bytecode < 2 ^ 64
unfolding vault_artifact compile_file_for_target integer_of lower_contract lower_spend lower_stmt
    lower_expr collect_instruction_grounding record_for_instruction encode_instruction_sequence_into
    encode_instruction
vault_small = omega arith

compile_file_correct_example :
    (program : Program) × (analysis : Analysis) × (ir : IrProgram ApplicationModel) × Lowered
      vault_lexer
      (λ s. s)
      "contract"
      "vault.ks"
      program
      analysis
      ir
    × ProgramFits program
    × Distinct (map (λ c. c.name.name) program.contracts)
    × All AcceptedContract program.contracts
    × All (λ c. All Ranged c.spends) program.contracts
    × (disassemble vault_artifact.0.bytecode ≡ ok (program_listing ir.contracts))
compile_file_correct_example =
    compile_file_correct vault_lexer (λ s. s) "contract" "vault.ks" (λ _. []) "1.0.0"
      Target.verified_tn12 vault_artifact.1 vault_small
