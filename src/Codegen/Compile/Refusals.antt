-- ===== src/Codegen/Compile/Refusals.antt =====
-- compiler/codegen/src/backends/toccata.rs: what the backend refuses a program for.
use kaspa_script.Prelude.{
  ℕ, ◌≡◌, ◌⊎◌, inl, inr, refl, sym, ◌∙◌, String, false, List, [], ◌∷◌, Option, none, some, Any,
  Bool-cases,
}
use kaspa_script.Prelude.Fault.{err, >>=-eq-err, err-injective, err-ne-ok}
use kaspa_script.Syntax.Token.{Span}
use kaspa_script.Ir.Instruction.{Instruction}
use kaspa_script.Ir.Program.{IrSpend, IrContract, IrProgram}
use kaspa_script.Codegen.Target.{
  Target, as_str, allows_gated_warnings, VerificationStatus, verified, gated, unsupported,
  GroundingRecord, CodegenError, gated_grounding, value_too_large,
}
use kaspa_script.Codegen.Grounding.{record_for_instruction, record_for_kip}
use kaspa_script.Codegen.Push.{Code}
use kaspa_script.Codegen.Encode.{
  unsupported_error, encode_instruction, encode_instruction_sequence_into,
}
use kaspa_script.Codegen.Support.{Fits, done, too_large, encode_kind-by_status}
use kaspa_script.Codegen.Compile.{
  Collected, collect_status, collect_grounding, collect_instruction_grounding, collect_kip,
  collect_kips, nothing, Output, compile_spends, compile_contracts, compile_toccata,
}

module _ (target : Target) where
  -- The error for a record that the target does not let through.
  pub data Barred (r : GroundingRecord) : CodegenError → Type 0 where
    not_allowed :
        r.status ≡ gated
        → allows_gated_warnings target ≡ false
        → Barred r (gated_grounding r.id (as_str target) r.citation r.note)
    not_supported : r.status ≡ unsupported → Barred r (unsupported_error r)

  -- The error for an instruction: its record is not let through, or a number or text is too large.
  pub data RefusedInstruction (i : Instruction) : CodegenError → Type 0 where
    barred : {e : CodegenError} → Barred (record_for_instruction i.kind) e → RefusedInstruction i e
    oversized :
        {span : Span} {message : String}
        → (record_for_instruction i.kind).status ≡ verified
        → RefusedInstruction i (value_too_large span message)

  abbrev pub RefusedKip : CodegenError → ℕ → Type 0
  RefusedKip e kip = (r : GroundingRecord) × (record_for_kip kip ≡ some r) × Barred r e

  abbrev pub RefusedSpend : CodegenError → IrSpend → Type 0
  RefusedSpend e s = Any (λ i. RefusedInstruction i e) s.instructions

  abbrev pub RefusedContracts : CodegenError → List IrContract → Type 0
  RefusedContracts e = Any (λ c. Any (RefusedSpend e) c.spends)

  collect_status-Barred :
      (s : VerificationStatus) (r : GroundingRecord) (c : Collected) {e : CodegenError}
      → r.status ≡ s
      → collect_status s r target c ≡ err e
      → Barred r e
  unfolding collect_status
  collect_status-Barred verified r c is h = absurd (err-ne-ok (sym h))
  collect_status-Barred gated r c is h = elim (Bool-cases (allows_gated_warnings target)) [
    | inl allowed ↦ absurd (err-ne-ok (sym (rw allowed at h)))
    | inr refused ↦ rw (← err-injective (rw refused at h)) (not_allowed is refused)
  ]
  collect_status-Barred unsupported r c is h = rw (← err-injective h) (not_supported is)

  collect_grounding-Barred :
      (r : GroundingRecord) (c : Collected) {e : CodegenError}
      → collect_grounding r target c ≡ err e
      → Barred r e
  unfolding collect_grounding
  collect_grounding-Barred r c h = collect_status-Barred r.status r c refl h

  collect_instructions-Refused :
      (is : List Instruction) (c : Collected) {e : CodegenError}
      → collect_instruction_grounding is target c ≡ err e
      → Any (λ i. RefusedInstruction i e) is
  unfolding collect_instruction_grounding
  collect_instructions-Refused [] c h = absurd (err-ne-ok (sym h))
  collect_instructions-Refused (i ∷ is) c h = elim (>>=-eq-err _ _ h) [
    | inl here ↦ inl (barred (collect_grounding-Barred _ c here))
    | inr (c', _, later) ↦ inr (collect_instructions-Refused is c' later)
  ]

  collect_kip-Refused :
      (kip : ℕ) (o : Option GroundingRecord) (c : Collected) {e : CodegenError}
      → record_for_kip kip ≡ o
      → collect_kip o target c ≡ err e
      → RefusedKip e kip
  unfolding collect_kip
  collect_kip-Refused kip none c is h = absurd (err-ne-ok (sym h))
  collect_kip-Refused kip (some r) c is h = (r, is, collect_grounding-Barred r c h)

  collect_kips-Refused :
      (kips : List ℕ) (c : Collected) {e : CodegenError}
      → collect_kips kips target c ≡ err e
      → Any (RefusedKip e) kips
  unfolding collect_kips
  collect_kips-Refused [] c h = absurd (err-ne-ok (sym h))
  collect_kips-Refused (k ∷ ks) c h = elim (>>=-eq-err _ _ h) [
    | inl here ↦ inl (collect_kip-Refused k _ c refl here)
    | inr (c', _, later) ↦ inr (collect_kips-Refused ks c' later)
  ]

  Fits-Refused :
      (i : Instruction) {code : Code} {e : CodegenError}
      → (record_for_instruction i.kind).status ≡ verified
      → Fits code
      → code ≡ err e
      → RefusedInstruction i e
  Fits-Refused i v done h = absurd (err-ne-ok (sym h))
  Fits-Refused i v too_large h = rw (← err-injective h) (oversized v)

  encode-Refused :
      (i : Instruction) (out : List ℕ) {e : CodegenError}
      → encode_instruction i out ≡ err e
      → RefusedInstruction i e
  unfolding encode_instruction
  encode-Refused i out h = elim (encode_kind-by_status i.kind i.span out) [
    | inl (v, fits) ↦ Fits-Refused i v fits h
    | inr (u, refused) ↦ barred (rw (← err-injective (sym refused ∙ h)) (not_supported u))
  ]

  encode_sequence-Refused :
      (is : List Instruction) (out : List ℕ) {e : CodegenError}
      → encode_instruction_sequence_into is out ≡ err e
      → Any (λ i. RefusedInstruction i e) is
  unfolding encode_instruction_sequence_into
  encode_sequence-Refused [] out h = absurd (err-ne-ok (sym h))
  encode_sequence-Refused (i ∷ is) out h = elim (>>=-eq-err _ _ h) [
    | inl here ↦ inl (encode-Refused i out here)
    | inr (out', _, later) ↦ inr (encode_sequence-Refused is out' later)
  ]

  compile_spends-Refused :
      (spends : List IrSpend) (o : Output) {e : CodegenError}
      → compile_spends spends target o ≡ err e
      → Any (RefusedSpend e) spends
  unfolding compile_spends
  compile_spends-Refused [] o h = absurd (err-ne-ok (sym h))
  compile_spends-Refused (s ∷ ss) o h =
      elim (>>=-eq-err (collect_instruction_grounding s.instructions target o.collected) _ h) [
        | inl here ↦ inl (collect_instructions-Refused s.instructions o.collected here)
        | inr (c, _, more) ↦
            elim (>>=-eq-err (encode_instruction_sequence_into s.instructions o.bytecode) _ more) [
              | inl here ↦ inl (encode_sequence-Refused s.instructions o.bytecode here)
              | inr (code, _, later) ↦ inr (compile_spends-Refused ss _ later)
            ]
      ]

  compile_contracts-Refused :
      (contracts : List IrContract) (o : Output) {e : CodegenError}
      → compile_contracts contracts target o ≡ err e
      → RefusedContracts e contracts
  unfolding compile_contracts
  compile_contracts-Refused [] o h = absurd (err-ne-ok (sym h))
  compile_contracts-Refused (c ∷ cs) o h = elim (>>=-eq-err _ _ h) [
    | inl here ↦ inl (compile_spends-Refused c.spends o here)
    | inr (o', _, later) ↦ inr (compile_contracts-Refused cs o' later)
  ]

  -- A lowered program that the backend refuses has a KIP or an instruction that the error is for.
  pub compile_toccata-Refused :
      (sha256 : List ℕ → List ℕ) {A : Type 0} (source : String) (ir : IrProgram A)
      (version : String) {e : CodegenError}
      → compile_toccata sha256 source ir version target ≡ err e
      → Any (RefusedKip e) ir.kip_requirements ⊎ RefusedContracts e ir.contracts
  unfolding compile_toccata
  compile_toccata-Refused sha256 source ir version h =
      elim (>>=-eq-err (collect_kips ir.kip_requirements target nothing) _ h) [
        | inl here ↦ inl (collect_kips-Refused ir.kip_requirements nothing here)
        | inr (c, _, more) ↦
            let start : Output = record { bytecode = []; collected = c } in
            elim (>>=-eq-err (compile_contracts ir.contracts target start) _ more) [
              | inl here ↦ inr (compile_contracts-Refused ir.contracts start here)
              | inr (o, _, last) ↦ absurd (err-ne-ok (sym last))
            ]
      ]
