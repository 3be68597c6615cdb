-- ===== src/Codegen/Compile.antt =====
-- compiler/codegen/src/backends/toccata.rs, lib.rs: a lowered program into an artifact. The `HashSet`
-- of warning ids is a list; SHA-256 is the `sha2` crate's, a parameter.
pub mod Bytecode
pub mod Warnings
pub mod Interface
pub mod Refusals
use text.Mathlib.Text.{◌==◌}
use kaspa_script.Prelude.{
  ℕ, String, Bool, true, false, List, [], ◌∷◌, ◌++◌, Option, none, some, map, ltb, if◌then◌else◌,
}
use kaspa_script.Prelude.Fault.{Result, ok, err, ◌>>=◌}
use kaspa_script.Prelude.Text.{as_bytes, member}
use kaspa_script.Syntax.Token.{TypeName}
use kaspa_script.Ir.Instruction.{Instruction}
use kaspa_script.Ir.Program.{IrParam, IrSpend, IrContract, IrProgram}
use kaspa_script.Codegen.Target.{
  Target, as_str, allows_gated_warnings, VerificationStatus, verified, gated, unsupported,
  GroundingRecord, GroundingWarning, warning, CodegenError, gated_grounding, unsupported_grounding,
}
use kaspa_script.Codegen.Grounding.{record_for_instruction, record_for_kip}
use kaspa_script.Codegen.Encode.{encode_instruction_sequence_into}
use kaspa_script.Codegen.Disassemble.{verify_bytecode}

-- The warnings so far, and the ids that they were given for.
pub record Collected : Type 0 where
  pub warnings : List GroundingWarning
  pub warning_ids : List String

-- `if warning_ids.insert(record.id) { warnings.push(record.warning()) }`
unfoldable pub warn_once : GroundingRecord → Collected → Collected
unfolding member warning
warn_once r c =
    if member r.id c.warning_ids
    then c
    else record { warnings = c.warnings ++ warning r ∷ []; warning_ids = r.id ∷ c.warning_ids }

-- The arms of `collect_grounding`, by the record's status.
unfoldable pub collect_status :
    VerificationStatus → GroundingRecord → Target → Collected → Result CodegenError Collected
unfolding warn_once allows_gated_warnings as_str
collect_status verified r target c = ok c
collect_status gated r target c =
    if allows_gated_warnings target
    then ok (warn_once r c)
    else err (gated_grounding r.id (as_str target) r.citation r.note)
collect_status unsupported r target c = err (unsupported_grounding r.id r.citation r.note)

unfoldable pub collect_grounding :
    GroundingRecord → Target → Collected → Result CodegenError Collected
unfolding collect_status
collect_grounding r target c = collect_status r.status r target c

unfoldable pub collect_instruction_grounding :
    List Instruction → Target → Collected → Result CodegenError Collected
unfolding collect_grounding
collect_instruction_grounding [] target c = ok c
collect_instruction_grounding (i ∷ is) target c =
    collect_grounding (record_for_instruction i.kind) target c
    >>= collect_instruction_grounding is target

unfoldable pub collect_kip :
    Option GroundingRecord → Target → Collected → Result CodegenError Collected
unfolding collect_grounding
collect_kip none target c = ok c
collect_kip (some r) target c = collect_grounding r target c

unfoldable pub collect_kips : List ℕ → Target → Collected → Result CodegenError Collected
unfolding collect_kip
collect_kips [] target c = ok c
collect_kips (kip ∷ kips) target c =
    collect_kip (record_for_kip kip) target c >>= collect_kips kips target

-- The bytecode and the warnings, as the loops over contracts and spends leave them.
pub record Output : Type 0 where
  pub bytecode : List ℕ
  pub collected : Collected

unfoldable pub compile_spends : List IrSpend → Target → Output → Result CodegenError Output
compile_spends [] target o = ok o
compile_spends (s ∷ spends) target o = do
  collected ← collect_instruction_grounding s.instructions target o.collected
  bytecode ← encode_instruction_sequence_into s.instructions o.bytecode
  compile_spends spends target (record { bytecode = bytecode; collected = collected })

unfoldable pub compile_contracts : List IrContract → Target → Output → Result CodegenError Output
unfolding compile_spends
compile_contracts [] target o = ok o
compile_contracts (c ∷ contracts) target o =
    compile_spends c.spends target o >>= compile_contracts contracts target

-- `filter_map(|contract| contract.finality_depth).max()`
unfoldable pub max_option : Option ℕ → Option ℕ → Option ℕ
max_option none b = b
max_option (some a) none = some a
max_option (some a) (some b) = some (if ltb b a then a else b)

unfoldable pub max_finality_depth : List IrContract → Option ℕ
unfolding max_option
max_finality_depth [] = none
max_finality_depth (c ∷ cs) = max_option c.finality_depth (max_finality_depth cs)

pub record ArtifactParam : Type 0 where
  pub name : String
  pub ty : TypeName

pub record ArtifactSpend : Type 0 where
  pub name : String
  pub params : List ArtifactParam
  pub instructions : List Instruction

pub record ArtifactContract : Type 0 where
  pub name : String
  pub params : List ArtifactParam
  pub finality_depth : Option ℕ
  pub spends : List ArtifactSpend

pub record CompiledArtifact (A : Type 0) : Type 0 where
  pub bytecode : List ℕ
  pub source_hash : List ℕ
  pub compiler_version : String
  pub backend : String
  pub target : String
  pub finality_depth : Option ℕ
  pub kip_requirements : List ℕ
  pub warnings : List GroundingWarning
  pub application : A
  pub contracts : List ArtifactContract

unfoldable pub artifact_param : IrParam → ArtifactParam
artifact_param p = record { name = p.name; ty = p.ty }

unfoldable pub artifact_spend : IrSpend → ArtifactSpend
unfolding artifact_param
artifact_spend s = record {
  name = s.name;
  params = map artifact_param s.params;
  instructions = s.instructions;
}

unfoldable pub artifact_contract : IrContract → ArtifactContract
unfolding artifact_spend artifact_param
artifact_contract c = record {
  name = c.name;
  params = map artifact_param c.params;
  finality_depth = c.finality_depth;
  spends = map artifact_spend c.spends;
}

abbrev pub nothing : Collected
nothing = record { warnings = []; warning_ids = [] }

module _ (sha256 : List ℕ → List ℕ) {A : Type 0} where
  unfoldable pub compile_toccata :
      String → IrProgram A → String → Target → Result CodegenError (CompiledArtifact A)
  unfolding collect_kips compile_contracts as_str max_finality_depth artifact_contract as_bytes
  compile_toccata source ir compiler_version target = do
    collected ← collect_kips ir.kip_requirements target nothing
    o ← compile_contracts ir.contracts target (record { bytecode = []; collected = collected })
    ok (record {
      bytecode = o.bytecode;
      source_hash = sha256 (as_bytes source);
      compiler_version = compiler_version;
      backend = "kaspa-txscript";
      target = as_str target;
      finality_depth = max_finality_depth ir.contracts;
      kip_requirements = ir.kip_requirements;
      warnings = o.collected.warnings;
      application = ir.application;
      contracts = map artifact_contract ir.contracts;
    })

unfoldable pub verify_artifact : {A : Type 0} → CompiledArtifact A → Result CodegenError (Unit {0})
unfolding verify_bytecode
verify_artifact artifact = verify_bytecode artifact.bytecode
