-- ===== src/Codegen/Compile/Bytecode.antt =====
-- The bytecode of an artifact is the listing of its instructions.
use kaspa_script.Prelude.{
  ℕ, ◌^◌, ◌<◌, ◌≡◌, ◌≢◌, refl, sym, ap, ◌∙◌, String, List, [], ◌∷◌, ◌++◌, length,
}
use mathlib.Core.List.{append_assoc, append-nil}
use kaspa_script.Prelude.Fault.{ok, >>=-eq-ok, ok-injective}
use kaspa_script.Ir.Program.{IrSpend, IrContract, IrProgram}
use kaspa_script.Codegen.Target.{Target}
use kaspa_script.Codegen.Encode.{encode_instruction_sequence_into}
use kaspa_script.Codegen.Disassemble.{disassemble, verify_bytecode}
use kaspa_script.Codegen.Listing.Entries.{listing}
use kaspa_script.Codegen.Listing.Chunks.{Emits-append, Emits-nil}
use kaspa_script.Codegen.Listing.Values.{Writes}
use kaspa_script.Codegen.Listing.Program.{encode_sequence-Writes, Emits-disassemble}
use kaspa_script.Codegen.Compile.{
  collect_instruction_grounding, collect_kips, nothing, Output, compile_spends, compile_contracts,
  CompiledArtifact, compile_toccata, verify_artifact,
}

-- The instructions of all spends of all contracts, in source order.
unfoldable pub spends_listing : List IrSpend → List String
unfolding listing
spends_listing [] = []
spends_listing (s ∷ spends) = listing s.instructions ++ spends_listing spends

unfoldable pub program_listing : List IrContract → List String
unfolding spends_listing
program_listing [] = []
program_listing (c ∷ contracts) = spends_listing c.spends ++ program_listing contracts

Writes-none : (out : List ℕ) → Writes out [] out
Writes-none out = ([], sym (append-nil out), Emits-nil)

Writes-both :
    (a b c : List ℕ) (es fs : List String) → Writes a es b → Writes b fs c → Writes a (es ++ fs) c
Writes-both a b c es fs (x, p, em) (y, q, em') =
    (x ++ y, q ∙ ap (λ z. z ++ y) p ∙ append_assoc a x y, Emits-append x y es fs em em')

compile_spends-Writes :
    (spends : List IrSpend) (target : Target) (o o' : Output)
    → compile_spends spends target o ≡ ok o'
    → Writes o.bytecode (spends_listing spends) o'.bytecode
unfolding compile_spends spends_listing
compile_spends-Writes [] target o o' h = rw (← ok-injective h) (Writes-none o.bytecode)
compile_spends-Writes (s ∷ spends) target o o' h =
    let (collected, e, h₁) =
      >>=-eq-ok (collect_instruction_grounding s.instructions target o.collected) _ h in
    let (code, e', more) =
      >>=-eq-ok (encode_instruction_sequence_into s.instructions o.bytecode) _ h₁ in
    Writes-both o.bytecode code o'.bytecode _ _
      (encode_sequence-Writes s.instructions o.bytecode code e')
      (compile_spends-Writes spends target (record { bytecode = code; collected = collected }) o'
        more)

compile_contracts-Writes :
    (contracts : List IrContract) (target : Target) (o o' : Output)
    → compile_contracts contracts target o ≡ ok o'
    → Writes o.bytecode (program_listing contracts) o'.bytecode
unfolding compile_contracts program_listing
compile_contracts-Writes [] target o o' h = rw (← ok-injective h) (Writes-none o.bytecode)
compile_contracts-Writes (c ∷ contracts) target o o' h =
    let (o₁, e, more) = >>=-eq-ok (compile_spends c.spends target o) _ h in
    Writes-both o.bytecode o₁.bytecode o'.bytecode _ _
      (compile_spends-Writes c.spends target o o₁ e)
      (compile_contracts-Writes contracts target o₁ o' more)

verify_listed :
    (bytecode : List ℕ) (asm : List String)
    → disassemble bytecode ≡ ok asm
    → bytecode ≢ []
    → verify_bytecode bytecode ≡ ok tt
unfolding verify_bytecode
verify_listed [] asm h ne = absurd (ne refl)
verify_listed (b ∷ bs) asm h ne = rw h

module _ (sha256 : List ℕ → List ℕ) {A : Type 0} (source : String) (ir : IrProgram A)
    (version : String) (target : Target) {artifact : CompiledArtifact A}
    (compiled : compile_toccata sha256 source ir version target ≡ ok artifact)
    (fits : length artifact.bytecode < 2 ^ 64) where
  -- Where a program compiles to an artifact of fewer than 2^64 bytes, its bytecode disassembles to the
  -- listing of the program.
  pub disassemble-compile_toccata :
      disassemble artifact.bytecode ≡ ok (program_listing ir.contracts)
  unfolding compile_toccata
  disassemble-compile_toccata =
      let (collected, e, h₁) =
        >>=-eq-ok (collect_kips ir.kip_requirements target nothing) _ compiled in
      let start : Output = record { bytecode = []; collected = collected } in
      let (o, e', last) = >>=-eq-ok (compile_contracts ir.contracts target start) _ h₁ in
      let same : artifact.bytecode ≡ o.bytecode =
        sym (ap (λ (a : CompiledArtifact A). a.bytecode) (ok-injective last)) in
      let (code, p, em) = compile_contracts-Writes ir.contracts target start o e' in
      rw (same, p) (Emits-disassemble code _ em (rw (← p, ← same) fits))

  -- `verify_artifact` accepts an artifact of the compiler whose bytecode is not empty and has fewer
  -- than 2^64 bytes.
  pub verify-compile_toccata : artifact.bytecode ≢ [] → verify_artifact artifact ≡ ok tt
  unfolding verify_artifact
  verify-compile_toccata ne = verify_listed artifact.bytecode _ disassemble-compile_toccata ne
