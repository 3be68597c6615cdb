-- ===== src/Codegen/Compile/Warnings.antt =====
-- The target gates: what a compiled program may contain, and the warnings that it carries.
use text.Mathlib.Text.{◌==◌}
use kaspa_script.Prelude.{
  ℕ, ◌≡◌, ◌⊎◌, inl, inr, refl, sym, ap, ◌∙◌, String, true, false, List, [], ◌∷◌, ◌++◌, map, Option,
  none, some, All, Bool-cases, arith, if◌then◌else◌,
}
use kaspa_script.Prelude.Fault.{ok, >>=-eq-ok, ok-injective, err-ne-ok}
use kaspa_script.Prelude.Text.{member, Distinct, ==-false_sym}
use kaspa_script.Ir.Instruction.{Instruction}
use kaspa_script.Ir.Program.{IrSpend, IrContract, IrProgram}
use kaspa_script.Codegen.Target.{
  Target, allows_gated_warnings, VerificationStatus, verified, gated, unsupported, GroundingRecord,
  GroundingWarning, warning,
}
use kaspa_script.Codegen.Grounding.{record_for_instruction, record_for_kip}
use kaspa_script.Codegen.Encode.{encode_instruction_sequence_into}
use kaspa_script.Codegen.Compile.{
  Collected, warn_once, collect_status, collect_grounding, collect_instruction_grounding,
  collect_kip, collect_kips, nothing, Output, compile_spends, compile_contracts, CompiledArtifact,
  compile_toccata,
}

-- A record that the target lets through.
abbrev pub IsAllowed : Target → VerificationStatus → Type 0
IsAllowed t s = (s ≡ verified) ⊎ ((s ≡ gated) × (allows_gated_warnings t ≡ true))

abbrev pub IsAllowedKip : Target → Option GroundingRecord → Type 0
IsAllowedKip t none = Unit
IsAllowedKip t (some r) = IsAllowed t r.status

abbrev pub AllowedInstructions : Target → List Instruction → Type 0
AllowedInstructions t = All (λ i. IsAllowed t (record_for_instruction i.kind).status)

abbrev pub AllowedContracts : Target → List IrContract → Type 0
AllowedContracts t = All (λ c. All (λ s. AllowedInstructions t s.instructions) c.spends)

-- A property of what was collected that a warning for an allowed gated record keeps.
module _ (target : Target) (P : Collected → Type 0)
    (keep : (r : GroundingRecord) (c : Collected)
      → allows_gated_warnings target ≡ true
      → P c
      → P (warn_once r c)) where
  collect_status-keeps :
      (s : VerificationStatus) (r : GroundingRecord) (c c' : Collected)
      → collect_status s r target c ≡ ok c'
      → P c
      → IsAllowed target s × P c'
  unfolding collect_status
  collect_status-keeps verified r c c' h p = (inl refl, rw (← ok-injective h) p)
  collect_status-keeps gated r c c' h p = elim (Bool-cases (allows_gated_warnings target)) [
    | inl allowed ↦
        (inr (refl, allowed), rw (← ok-injective (rw allowed at h)) (keep r c allowed p))
    | inr refused ↦ absurd (err-ne-ok (rw refused at h))
  ]
  collect_status-keeps unsupported r c c' h p = absurd (err-ne-ok h)

  collect_grounding-keeps :
      (r : GroundingRecord) (c c' : Collected)
      → collect_grounding r target c ≡ ok c'
      → P c
      → IsAllowed target r.status × P c'
  unfolding collect_grounding
  collect_grounding-keeps r = collect_status-keeps r.status r

  collect_instructions-keeps :
      (is : List Instruction) (c c' : Collected)
      → collect_instruction_grounding is target c ≡ ok c'
      → P c
      → AllowedInstructions target is × P c'
  unfolding collect_instruction_grounding
  collect_instructions-keeps [] c c' h p = (tt, rw (← ok-injective h) p)
  collect_instructions-keeps (i ∷ is) c c' h p =
      let (c₁, e, more) =
        >>=-eq-ok (collect_grounding (record_for_instruction i.kind) target c) _ h in
      let (a, p₁) = collect_grounding-keeps (record_for_instruction i.kind) c c₁ e p in
      let (more_allowed, p') = collect_instructions-keeps is c₁ c' more p₁ in
      ((a, more_allowed), p')

  collect_kip-keeps :
      (k : Option GroundingRecord) (c c' : Collected)
      → collect_kip k target c ≡ ok c'
      → P c
      → IsAllowedKip target k × P c'
  unfolding collect_kip
  collect_kip-keeps none c c' h p = (tt, rw (← ok-injective h) p)
  collect_kip-keeps (some r) c c' h p = collect_grounding-keeps r c c' h p

  collect_kips-keeps :
      (kips : List ℕ) (c c' : Collected)
      → collect_kips kips target c ≡ ok c'
      → P c
      → All (λ k. IsAllowedKip target (record_for_kip k)) kips × P c'
  unfolding collect_kips
  collect_kips-keeps [] c c' h p = (tt, rw (← ok-injective h) p)
  collect_kips-keeps (k ∷ ks) c c' h p =
      let (c₁, e, more) = >>=-eq-ok (collect_kip (record_for_kip k) target c) _ h in
      let (a, p₁) = collect_kip-keeps (record_for_kip k) c c₁ e p in
      let (more_allowed, p') = collect_kips-keeps ks c₁ c' more p₁ in ((a, more_allowed), p')

  compile_spends-keeps :
      (spends : List IrSpend) (o o' : Output)
      → compile_spends spends target o ≡ ok o'
      → P o.collected
      → All (λ s. AllowedInstructions target s.instructions) spends × P o'.collected
  unfolding compile_spends
  compile_spends-keeps [] o o' h p = (tt, rw (← ok-injective h) p)
  compile_spends-keeps (s ∷ ss) o o' h p =
      let (c₁, e, h₁) =
        >>=-eq-ok (collect_instruction_grounding s.instructions target o.collected) _ h in
      let (code, e', more) =
        >>=-eq-ok (encode_instruction_sequence_into s.instructions o.bytecode) _ h₁ in
      let (a, p₁) = collect_instructions-keeps s.instructions o.collected c₁ e p in
      let (more_allowed, p') =
        compile_spends-keeps ss (record { bytecode = code; collected = c₁ }) o' more p₁ in
      ((a, more_allowed), p')

  compile_contracts-keeps :
      (contracts : List IrContract) (o o' : Output)
      → compile_contracts contracts target o ≡ ok o'
      → P o.collected
      → AllowedContracts target contracts × P o'.collected
  unfolding compile_contracts
  compile_contracts-keeps [] o o' h p = (tt, rw (← ok-injective h) p)
  compile_contracts-keeps (c ∷ cs) o o' h p =
      let (o₁, e, more) = >>=-eq-ok (compile_spends c.spends target o) _ h in
      let (a, p₁) = compile_spends-keeps c.spends o o₁ e p in
      let (more_allowed, p') = compile_contracts-keeps cs o₁ o' more p₁ in ((a, more_allowed), p')

  -- What the whole compilation lets through, and that the property holds at its end.
  compile-keeps :
      (sha256 : List ℕ → List ℕ) {A : Type 0} (source : String) (ir : IrProgram A)
      (version : String) {artifact : CompiledArtifact A}
      → compile_toccata sha256 source ir version target ≡ ok artifact
      → P nothing
      → (All (λ k. IsAllowedKip target (record_for_kip k)) ir.kip_requirements
          × AllowedContracts target ir.contracts)
        × (c : Collected) × (artifact.warnings ≡ c.warnings)
        × P c
  unfolding compile_toccata
  compile-keeps sha256 {A} source ir version {artifact} compiled p =
      let (c₁, e, h₁) = >>=-eq-ok (collect_kips ir.kip_requirements target nothing) _ compiled in
      let start : Output = record { bytecode = []; collected = c₁ } in
      let (o, e', last) = >>=-eq-ok (compile_contracts ir.contracts target start) _ h₁ in
      let (kips, p₁) = collect_kips-keeps ir.kip_requirements nothing c₁ e p in
      let (contracts, p₂) = compile_contracts-keeps ir.contracts start o e' p₁ in
      let same : artifact.warnings ≡ o.collected.warnings =
        sym (ap (λ (a : CompiledArtifact A). a.warnings) (ok-injective last)) in
      ((kips, contracts), o.collected, same, p₂)

abbrev pub ids : List GroundingWarning → List String
ids = map λ w. w.id

-- The recorded ids are those of the warnings, each given once.
record IsOnce (c : Collected) : Type 0 where
  distinct : Distinct (ids c.warnings)
  recorded : (i : String) → member i c.warning_ids ≡ member i (ids c.warnings)

member-append :
    (i j : String) (xs : List String)
    → member i (xs ++ j ∷ []) ≡ (if i == j then true else member i xs)
unfolding member
member-append i j [] = refl
member-append i j (x ∷ xs) = ground (arith, member-append i j xs)

Distinct-append :
    (j : String) (xs : List String) → member j xs ≡ false → Distinct xs → Distinct (xs ++ j ∷ [])
unfolding member
Distinct-append j [] h d = (refl, tt)
Distinct-append j (x ∷ xs) h d = elim (Bool-cases (j == x)) [
  | inl same ↦ cc (rw same at h)
  | inr other ↦
      let fresh : member j xs ≡ false = rw other at h in
      (rw (member-append x j xs, ==-false_sym j x other) d.0, Distinct-append j xs fresh d.1)
]

ids-append :
    (ws : List GroundingWarning) (w : GroundingWarning) → ids (ws ++ w ∷ []) ≡ ids ws ++ w.id ∷ []
ids-append [] w = refl
ids-append (v ∷ ws) w = ap (λ xs. v.id ∷ xs) (ids-append ws w)

warn_once-IsOnce : (r : GroundingRecord) (c : Collected) → IsOnce c → IsOnce (warn_once r c)
unfolding warn_once
warn_once-IsOnce r c h = elim (Bool-cases (member r.id c.warning_ids)) [
  | inl old ↦ rw old h
  | inr new ↦
      let fresh : member r.id (ids c.warnings) ≡ false = sym (h.recorded r.id) ∙ new in
      let all_ids = ids-append c.warnings (warning r) in
      rw new (record {
        distinct = rw all_ids (Distinct-append r.id (ids c.warnings) fresh h.distinct);
        recorded = λ i. rw (all_ids, member-append i r.id (ids c.warnings)) (rw (h.recorded i));
      })
]

module _ (sha256 : List ℕ → List ℕ) {A : Type 0} (source : String) (ir : IrProgram A)
    (version : String) (target : Target) {artifact : CompiledArtifact A}
    (compiled : compile_toccata sha256 source ir version target ≡ ok artifact) where
  -- Where a program compiles, each of its KIPs has no record or one that the target lets through, and the
  -- record of each of its instructions is one that the target lets through.
  pub compile_toccata-allowed :
      All (λ k. IsAllowedKip target (record_for_kip k)) ir.kip_requirements
      × AllowedContracts target ir.contracts
  compile_toccata-allowed =
      (compile-keeps target (λ _. Unit) (λ r c h p. tt) sha256 source ir version compiled tt).0

  -- Where a program compiles for a target that does not allow gated warnings, its artifact has no
  -- warnings.
  pub warnings-compile_toccata_strict :
      allows_gated_warnings target ≡ false → artifact.warnings ≡ []
  warnings-compile_toccata_strict strict =
      let never =
        λ (r : GroundingRecord) (c : Collected) (h : allows_gated_warnings target ≡ true)
            (p : c.warnings ≡ []).
          absurd (cc (h, strict)) in
      let (_, c, same, none_left) =
        compile-keeps target (λ c. c.warnings ≡ []) never sha256 source ir version compiled refl in
      same ∙ none_left

  -- Where a program compiles, no two warnings of its artifact have the same id.
  pub warnings-compile_toccata-Distinct : Distinct (ids artifact.warnings)
  warnings-compile_toccata-Distinct =
      let start : IsOnce nothing = record { distinct = tt; recorded = λ i. refl } in
      let (_, c, same, once) =
        compile-keeps target IsOnce (λ r c _. warn_once-IsOnce r c) sha256 source ir version
          compiled start in
      rw same once.distinct
