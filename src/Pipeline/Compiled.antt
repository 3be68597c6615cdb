-- ===== src/Pipeline/Compiled.antt =====
-- compiler/codegen/src/lib.rs: what holds of a source file that compiles, over all the stages.
use kaspa_script.Prelude.{ℕ, ◌<◌, ◌^◌, ◌≡◌, ◌⊎◌, ap, String, List, [], map, length, All, Any}
use kaspa_script.Prelude.Fault.{Result, ok, err, ◌>>=◌, >>=-eq-ok, ok-injective, err-ne-ok}
use kaspa_script.Prelude.Text.{Distinct}
use kaspa_script.Syntax.Ast.{Program}
use kaspa_script.Lexer.Lex.{Raw}
use kaspa_script.Semantic.Analyze.{Analysis, analyze_program}
use kaspa_script.Semantic.SpendMet.{Ranged}
use kaspa_script.Semantic.Accepted.{
  AcceptedContract, analyze_program-accepted, analyze_program-Ranged,
}
use kaspa_script.Parser.State.{Failure, failed}
use kaspa_script.Semantic.Failure.{ParseError, AnalyzeError, AnalyzeFailure}
use kaspa_script.Ir.Emit.{IrError}
use kaspa_script.Parser.Programs.{parse_file}
use kaspa_script.Parser.Ends.Programs.{
  ProgramFits, Parsed, program as parses, refused, parse_file-Parsed,
}
use kaspa_script.Application.Model.{ApplicationModel}
use kaspa_script.Application.Build.{build_application_model}
use kaspa_script.Ir.Program.{IrProgram}
use kaspa_script.Ir.LowerProgram.{lower_program}
use kaspa_script.Codegen.Target.{Target, CodegenError}
use kaspa_script.Codegen.Disassemble.{disassemble}
use kaspa_script.Codegen.Compile.Bytecode.{program_listing}
use kaspa_script.Codegen.Compile.{CompiledArtifact, compile_toccata}
use kaspa_script.Codegen.Compile.Refusals.{RefusedKip, RefusedContracts}
use kaspa_script.Codegen.Compile.Bytecode.{disassemble-compile_toccata}
use kaspa_script.Pipeline.Files.{
  Fuelled, reported, parse_failure, map_fuelled, map_err, parsed, lower_file,
  compile_file_for_target,
}

module _ {E F A : Type 0} where
  map_err-ok : (f : E → F) (r : Result E A) {a : A} → map_err f r ≡ ok a → r ≡ ok a
  unfolding map_err
  map_err-ok f (ok b) h = ap ok (ok-injective h)
  map_err-ok f (err e) h = absurd (err-ne-ok h)

Parsed-ok : {a : Program} {r : Result Failure Program} → Parsed r → r ≡ ok a → ProgramFits a
Parsed-ok (parses h) e = rw (← ok-injective e) h
Parsed-ok refused e = absurd (err-ne-ok e)

module _ (lexer : String → List Raw) (debug : String → String) (source file : String) where
  -- A program that the source parses to, and whose checked form lowers to `ir`.
  abbrev pub Lowered : Program → Analysis → IrProgram ApplicationModel → Type 0
  Lowered program analysis ir =
      (parse_file lexer source file ≡ ok program)
      × (analyze_program program source file ≡ ok analysis)
      × (lower_program (build_application_model debug) analysis.program analysis.kip_requirements
            file
          ≡ ok ir)

  lower_file-Lowered :
      (ir : IrProgram ApplicationModel)
      → lower_file lexer debug source file ≡ ok ir
      → (program : Program) × (analysis : Analysis) × Lowered program analysis ir
  unfolding lower_file parsed
  lower_file-Lowered ir h =
      let (program, e, more) = >>=-eq-ok _ _ h in
      let (analysis, e', last) = >>=-eq-ok _ _ more in
      (
        program,
        analysis,
        (map_err-ok _ _ (map_err-ok _ _ e), map_err-ok _ _ e', map_err-ok _ _ last),
      )

  module _ (sha256 : List ℕ → List ℕ) (version : String) (target : Target) where
    -- What a compilation ends with. The first stage that fails gives the error; the backend's is one for
    -- a KIP or an instruction of the lowered program.
    pub data Outcome
        : Result (Fuelled CodegenError) (CompiledArtifact ApplicationModel) → Type 0 where
      not_parsed :
          {e : ParseError}
          → parse_file lexer source file ≡ err (failed e)
          → Outcome (
              err (
                reported (
                  CodegenError.ir
                    (IrError.semantic record { error = AnalyzeError.parse e; errors = [] }))))
      not_accepted :
          {program : Program} {e : AnalyzeFailure}
          → parse_file lexer source file ≡ ok program
          → analyze_program program source file ≡ err e
          → Outcome (err (reported (CodegenError.ir (IrError.semantic e))))
      not_lowered :
          {program : Program} {analysis : Analysis} {e : IrError}
          → parse_file lexer source file ≡ ok program
          → analyze_program program source file ≡ ok analysis
          → lower_program
              (build_application_model debug)
              analysis.program
              analysis.kip_requirements
              file
            ≡ err e
          → Outcome (err (reported (CodegenError.ir e)))
      not_encoded :
          {program : Program} {analysis : Analysis} {ir : IrProgram ApplicationModel}
          {e : CodegenError}
          → Lowered program analysis ir
          → Any (RefusedKip target e) ir.kip_requirements ⊎ RefusedContracts target e ir.contracts
          → Outcome (err (reported e))
      compiled :
          {program : Program} {analysis : Analysis} {ir : IrProgram ApplicationModel}
          {artifact : CompiledArtifact ApplicationModel}
          → Lowered program analysis ir
          → compile_toccata sha256 source ir version target ≡ ok artifact
          → Outcome (ok artifact)

    -- The stages behind the lowering, the checker and the parser, on what these give.
    abbrev after_lowering :
        Result (Fuelled IrError) (IrProgram ApplicationModel)
        → Result (Fuelled CodegenError) (CompiledArtifact ApplicationModel)
    after_lowering r = map_err (map_fuelled CodegenError.ir) r >>= λ ir.
        map_err reported (compile_toccata sha256 source ir version target)

    abbrev lower_checked : Analysis → Result IrError (IrProgram ApplicationModel)
    lower_checked analysis =
        lower_program (build_application_model debug) analysis.program analysis.kip_requirements
          file

    abbrev after_checker :
        Result AnalyzeFailure Analysis
        → Result (Fuelled CodegenError) (CompiledArtifact ApplicationModel)
    after_checker r = after_lowering (
        map_err (λ e. reported (IrError.semantic e)) r >>= λ analysis.
        map_err reported (lower_checked analysis))

    abbrev after_parser :
        Result Failure Program → Result (Fuelled CodegenError) (CompiledArtifact ApplicationModel)
    after_parser r = after_lowering (
        map_err (map_fuelled IrError.semantic) (map_err parse_failure r) >>= λ program.
        map_err (λ e. reported (IrError.semantic e)) (analyze_program program source file)
        >>= λ analysis. map_err reported (lower_checked analysis))

    -- A source file that compiles to an artifact of fewer than 2^64 bytes parses to a program. Each integer
    -- literal and finality depth in that is below 2^64. The checker accepts it: its contracts have different
    -- names, the parameters of a contract differ, and so do its spends, each spend holds a `require`, and
    -- so on for the rest of `AcceptedContract`; and a literal index of an input or output is below the
    -- counts that its spend states. The checked program lowers, and the bytecode disassembles to the
    -- listing of the lowered contracts.
    pub compile_file_correct :
        {artifact : CompiledArtifact ApplicationModel}
        → compile_file_for_target lexer debug sha256 version source file target ≡ ok artifact
        → length artifact.bytecode < 2 ^ 64
        → (program : Program) × (analysis : Analysis) × (ir : IrProgram ApplicationModel) × Lowered
            program analysis ir
          × ProgramFits program
          × Distinct (map (λ c. c.name.name) program.contracts)
          × All AcceptedContract program.contracts
          × All (λ c. All Ranged c.spends) program.contracts
          × (disassemble artifact.bytecode ≡ ok (program_listing ir.contracts))
    unfolding compile_file_for_target
    compile_file_correct h small =
        let (ir, e, last) = >>=-eq-ok _ _ h in
        let (program, analysis, lowered) = lower_file-Lowered ir (map_err-ok _ _ e) in
        let (distinct, accepted) = analyze_program-accepted program source file lowered.1 in
        (
          program,
          analysis,
          ir,
          lowered,
          Parsed-ok (parse_file-Parsed lexer source file) lowered.0,
          distinct,
          accepted,
          analyze_program-Ranged program source file lowered.1,
          disassemble-compile_toccata sha256 source ir version target (map_err-ok _ _ last) small,
        )
