-- ===== src/Codegen/Target.antt =====
-- compiler/codegen/src/lib.rs, grounding.rs: the target gates, the grounding data and the errors.
pub mod Label
use kaspa_script.Prelude.{ℕ, String, Bool, true, false, Option, none, some, if◌then◌else◌}
use kaspa_script.Syntax.Token.{Span}
use kaspa_script.Ir.Emit.{IrError}
use text.Mathlib.Text.{◌==◌}

pub data Target : Type 0 where
  verified_tn12 tn10_toccata toccata_preview future_mainnet : Target

-- `Target::as_str`
unfoldable pub as_str : Target → String
as_str verified_tn12 = "verified-tn12"
as_str tn10_toccata = "tn10-toccata"
as_str toccata_preview = "toccata-preview"
as_str future_mainnet = "future-mainnet"

-- `Target::parse`
unfoldable pub parse : String → Option Target
parse label =
    if label == "verified-tn12"
    then some verified_tn12
    else if label == "tn10-toccata"
    then some tn10_toccata
    else if label == "toccata-preview"
    then some toccata_preview
    else if label == "future-mainnet"
    then some future_mainnet
    else none

-- `Target::allows_gated_warnings`
unfoldable pub allows_gated_warnings : Target → Bool
allows_gated_warnings tn10_toccata = true
allows_gated_warnings toccata_preview = true
allows_gated_warnings _ = false

pub data VerificationStatus : Type 0 where
  verified gated unsupported : VerificationStatus

pub data GroundingCategory : Type 0 where
  backend_opcode builtin kip_reference transaction_assumption artifact_field target_gate :
      GroundingCategory

pub record SourceCitation : Type 0 where
  pub path : String
  pub detail : String

pub record GroundingRecord : Type 0 where
  pub id : String
  pub category : GroundingCategory
  pub status : VerificationStatus
  pub citation : SourceCitation
  pub note : String

pub record GroundingWarning : Type 0 where
  pub id : String
  pub category : GroundingCategory
  pub citation : SourceCitation
  pub message : String

-- `GroundingRecord::warning`
unfoldable pub warning : GroundingRecord → GroundingWarning
warning r = record { id = r.id; category = r.category; citation = r.citation; message = r.note }

-- `out_of_fuel` has no counterpart in the program: it marks a loop that the model cut short.
pub data CodegenError : Type 0 where
  ir : IrError → CodegenError
  value_too_large : Span → String → CodegenError
  empty_bytecode : CodegenError
  unsupported_grounding : String → SourceCitation → String → CodegenError
  gated_grounding : String → String → SourceCitation → String → CodegenError
  invalid_bytecode : ℕ → String → CodegenError
  out_of_fuel : CodegenError
