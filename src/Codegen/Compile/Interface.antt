-- ===== src/Codegen/Compile/Interface.antt =====
-- compiler/ir/src/gen.rs and compiler/codegen/src/backends/toccata.rs: the contracts that an artifact
-- describes are those of the program.
use kaspa_script.Prelude.{
  ℕ, ◌≡◌, refl, sym, ap, ◌∙◌, String, List, [], ◌∷◌, Option, none, some, map,
}
use kaspa_script.Prelude.Fault.{ok, >>=-eq-ok, ok-injective}
use kaspa_script.Syntax.Token.{TypeName}
use kaspa_script.Syntax.Ast.{Param, Spend, Contract, Program}
use kaspa_script.Semantic.Analyze
use kaspa_script.Ir.Program.{IrSpend, IrContract, IrProgram}
use kaspa_script.Ir.LowerProgram.{
  ir_param, lower_stmts, lower_spend, lower_spends, lower_contract, lower_contracts, lower_program,
}
use kaspa_script.Codegen.Target.{Target}
use kaspa_script.Codegen.Compile
use kaspa_script.Codegen.Compile.{
  ArtifactParam, ArtifactSpend, ArtifactContract, artifact_param, artifact_spend, artifact_contract,
  collect_kips, compile_contracts, nothing, Output, CompiledArtifact, compile_toccata,
}

-- A name with its typed parameters.
abbrev pub Entry : Type 0
Entry = String × List (String × TypeName)

-- A contract's entry, its finality depth, and the entries of its spends.
abbrev pub Outline : Type 0
Outline = Entry × Option ℕ × List Entry

abbrev pub source_params : List Param → List (String × TypeName)
source_params = map λ p. (p.name.name, p.ty)

abbrev pub source_spend : Spend → Entry
source_spend s = (s.name.name, source_params s.params)

abbrev pub source_outline : Contract → Outline
source_outline c =
    ((c.name.name, source_params c.params), c.finality_depth, map source_spend c.spends)

abbrev pub described_params : List ArtifactParam → List (String × TypeName)
described_params = map λ p. (p.name, p.ty)

abbrev pub described_spend : ArtifactSpend → Entry
described_spend s = (s.name, described_params s.params)

abbrev pub described_outline : ArtifactContract → Outline
described_outline c =
    ((c.name, described_params c.params), c.finality_depth, map described_spend c.spends)

params-kept :
    (ps : List Param) → described_params (map artifact_param (map ir_param ps)) ≡ source_params ps
unfolding artifact_param ir_param
params-kept [] = refl
params-kept (p ∷ ps) = rw (params-kept ps) refl

spend-kept :
    (s : Spend) (file : String) {r : IrSpend}
    → lower_spend s file ≡ ok r
    → described_spend (artifact_spend r) ≡ source_spend s
unfolding lower_spend artifact_spend
spend-kept s file h =
    let (code, e, last) = >>=-eq-ok (lower_stmts s.body [] file) _ h in
    rw (← ok-injective last) (ap (λ ps. (s.name.name, ps)) (params-kept s.params))

spends-kept :
    (ss : List Spend) (file : String) {r : List IrSpend}
    → lower_spends ss file ≡ ok r
    → map described_spend (map artifact_spend r) ≡ map source_spend ss
unfolding lower_spends
spends-kept [] file h = rw (← ok-injective h) refl
spends-kept (s ∷ ss) file h =
    let (spend, e, more) = >>=-eq-ok (lower_spend s file) _ h in
    let (spends, e', last) = >>=-eq-ok (lower_spends ss file) _ more in
    rw (← ok-injective last) (rw (spend-kept s file e, spends-kept ss file e') refl)

contract-kept :
    (c : Contract) (file : String) {r : IrContract}
    → lower_contract c file ≡ ok r
    → (described_outline (artifact_contract r) ≡ source_outline c)
      × (r.finality_depth ≡ c.finality_depth)
unfolding lower_contract artifact_contract
contract-kept c file h =
    let (spends, e, last) = >>=-eq-ok (lower_spends c.spends file) _ h in
    rw (← ok-injective last) (rw (params-kept c.params, spends-kept c.spends file e) refl, refl)

max-same : (a b : Option ℕ) → Compile.max_option a b ≡ Analyze.max_depth a b
unfolding Compile.max_option Analyze.max_depth
max-same none b = refl
max-same (some a) none = refl
max-same (some a) (some b) = refl

contracts-kept :
    (cs : List Contract) (file : String) {r : List IrContract}
    → lower_contracts cs file ≡ ok r
    → (map described_outline (map artifact_contract r) ≡ map source_outline cs)
      × (Compile.max_finality_depth r ≡ Analyze.max_finality_depth cs)
unfolding lower_contracts Compile.max_finality_depth Analyze.max_finality_depth
contracts-kept [] file h = rw (← ok-injective h) (refl, refl)
contracts-kept (c ∷ cs) file h =
    let (contract, e, more) = >>=-eq-ok (lower_contract c file) _ h in
    let (contracts, e', last) = >>=-eq-ok (lower_contracts cs file) _ more in
    let (same, depth) = contract-kept c file e in
    let (same', depth') = contracts-kept cs file e' in
    rw (← ok-injective last) (
      rw (same, same') refl,
      rw (depth, depth') (max-same c.finality_depth (Analyze.max_finality_depth cs)),
    )

-- Where a program is lowered and then compiled, the artifact describes the program's contracts: their
-- names, parameters, finality depths and spends, in order. Its own finality depth is the one that the
-- analysis of the program computes, and its KIPs are those that the lowering was given.
pub outline-compile_toccata :
    {A : Type 0} (build_application_model : Program → A) (p : Program) (kips : List ℕ)
    (file : String) (sha256 : List ℕ → List ℕ) (source version : String) (target : Target)
    {ir : IrProgram A} {artifact : CompiledArtifact A}
    → lower_program build_application_model p kips file ≡ ok ir
    → compile_toccata sha256 source ir version target ≡ ok artifact
    → (map described_outline artifact.contracts ≡ map source_outline p.contracts)
      × (artifact.finality_depth ≡ Analyze.max_finality_depth p.contracts)
      × (artifact.kip_requirements ≡ kips)
unfolding lower_program compile_toccata
outline-compile_toccata build p kips file sha256 source version target {ir} {artifact} lowered
      compiled =
    let (contracts, e, made) = >>=-eq-ok (lower_contracts p.contracts file) _ lowered in
    let (same, depth) = contracts-kept p.contracts file e in
    let (collected, _, h₁) =
      >>=-eq-ok (collect_kips ir.kip_requirements target nothing) _ compiled in
    let start : Output = record { bytecode = []; collected = collected } in
    let (o, _, last) = >>=-eq-ok (compile_contracts ir.contracts target start) _ h₁ in
    let from : ir.contracts ≡ contracts =
      sym (ap (λ (x : IrProgram _). x.contracts) (ok-injective made)) in
    let given : ir.kip_requirements ≡ kips =
      sym (ap (λ (x : IrProgram _). x.kip_requirements) (ok-injective made)) in
    let result = ok-injective last in
    (
      sym (ap (λ (a : CompiledArtifact _). map described_outline a.contracts) result)
          ∙ (rw from same),
      sym (ap (λ (a : CompiledArtifact _). a.finality_depth) result) ∙ (rw from depth),
      sym (ap (λ (a : CompiledArtifact _). a.kip_requirements) result) ∙ given,
    )
