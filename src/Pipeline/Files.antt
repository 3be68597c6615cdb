-- ===== src/Pipeline/Files.antt =====
-- compiler/semantic/src/checker.rs, compiler/ir/src/gen.rs, compiler/codegen/src/lib.rs: the functions
-- that start from a source file. The raw tokens of a source, the text that the standard library writes
-- for a string, SHA-256 and the package's version are parameters. `out_of_fuel` is the model's own.
use kaspa_script.Prelude.{ℕ, String, List, []}
use kaspa_script.Prelude.Fault.{Result, ok, err, ◌>>=◌}
use kaspa_script.Syntax.Ast.{Program}
use kaspa_script.Lexer.Lex.{Raw}
use kaspa_script.Semantic.Failure.{AnalyzeError, AnalyzeFailure}
use kaspa_script.Semantic.Analyze.{Analysis, analyze_program}
use kaspa_script.Parser.State
use kaspa_script.Parser.State.{Failure, failed}
use kaspa_script.Parser.Programs.{parse_file}
use kaspa_script.Application.Model.{ApplicationModel}
use kaspa_script.Application.Build.{build_application_model}
use kaspa_script.Ir.Program.{IrProgram}
use kaspa_script.Ir.Emit.{IrError}
use kaspa_script.Ir.LowerProgram.{lower_program}
use kaspa_script.Codegen.Target.{Target, CodegenError}
use kaspa_script.Codegen.Compile.{CompiledArtifact, compile_toccata}

-- An error that the code reports, or the end of the parser's fuel.
pub data Fuelled (E : Type 0) : Type 0 where
  out_of_fuel : Fuelled E
  reported : E → Fuelled E

-- `map_err` on a parse error.
unfoldable pub parse_failure : Failure → Fuelled AnalyzeFailure
parse_failure State.out_of_fuel = out_of_fuel
parse_failure (failed e) = reported record { error = AnalyzeError.parse e; errors = [] }

unfoldable pub map_fuelled : {E F : Type 0} → (E → F) → Fuelled E → Fuelled F
map_fuelled f out_of_fuel = out_of_fuel
map_fuelled f (reported e) = reported (f e)

unfoldable pub map_err : {E F A : Type 0} → (E → F) → Result E A → Result F A
map_err f (ok a) = ok a
map_err f (err e) = err (f e)

module _ (lexer : String → List Raw) where
  -- `parse_file` with the errors of `analyze_file`
  unfoldable pub parsed : String → String → Result (Fuelled AnalyzeFailure) Program
  unfolding parse_file map_err parse_failure
  parsed source file = map_err parse_failure (parse_file lexer source file)

  unfoldable pub analyze_file : String → String → Result (Fuelled AnalyzeFailure) Analysis
  unfolding parsed map_err analyze_program
  analyze_file source file = do
    program ← parsed source file
    map_err reported (analyze_program program source file)

  module _ (debug : String → String) where
    unfoldable pub lower_file :
        String → String → Result (Fuelled IrError) (IrProgram ApplicationModel)
    unfolding parsed map_err map_fuelled analyze_program lower_program build_application_model
    lower_file source file = do
      program ← map_err (map_fuelled IrError.semantic) (parsed source file)
      analysis ← map_err (λ e. reported (IrError.semantic e)) (analyze_program program source file)
      map_err reported (
          lower_program (build_application_model debug) analysis.program analysis.kip_requirements
            file)

    module _ (sha256 : List ℕ → List ℕ) (version : String) where
      unfoldable pub compile_file_for_target :
          String
          → String
          → Target
          → Result (Fuelled CodegenError) (CompiledArtifact ApplicationModel)
      unfolding lower_file map_err map_fuelled compile_toccata
      compile_file_for_target source file target = do
        ir ← map_err (map_fuelled CodegenError.ir) (lower_file source file)
        map_err reported (compile_toccata sha256 source ir version target)

      unfoldable pub compile_file :
          String → String → Result (Fuelled CodegenError) (CompiledArtifact ApplicationModel)
      unfolding compile_file_for_target
      compile_file source file = compile_file_for_target source file Target.verified_tn12
