-- ===== src/Codegen/Listing/Program.antt =====
-- The listing of a whole instruction sequence, and of a spend's script.
use mathlib.Core.List.{append_assoc, append-nil}
use native.Mathlib.Nat.{add-zero}
use kaspa_script.Prelude.{
  ℕ, ◌+◌, ◌-◌, ◌^◌, ◌<◌, ◌≡◌, refl, sym, ◌∙◌, ap, String, some, List, [], ◌∷◌, ◌++◌, length, arith,
}
use kaspa_script.Prelude.Fault.{Result, ok, ◌>>=◌, >>=-eq-ok, ok-injective, err-ne-ok}
use kaspa_script.Prelude.Text.{decimal}
use kaspa_script.Syntax.Token.{Span}
use kaspa_script.Codegen.Target.{CodegenError}
use kaspa_script.Ir.Instruction.{Instruction, InstructionKind}
use kaspa_script.Codegen.Opcode.{opcode_name}
use kaspa_script.Codegen.Push.{encode_u64, encode_indexed}
use kaspa_script.Codegen.Encode.{
  encode_kind, encode_instruction, encode_instruction_sequence_into, compile_instruction_sequence,
  compile_spend_script,
}
use kaspa_script.Codegen.Disassemble.{disassemble_one, disassemble, plain_opcode}
use kaspa_script.Codegen.Listing.Entries.{number_entry, kind_entries, listing}
use kaspa_script.Codegen.Listing.Chunks.{Emits, Emits-one, Emits-nil, Emits-append}
use kaspa_script.Codegen.Listing.Values.{
  Writes, Writes-byte, Emits-small, encode_u64-Writes, encode_push-Writes,
}

disassemble_one-plain :
    (opcode offset : ℕ) (rest : List ℕ)
    → 0x60 < opcode
    → disassemble_one opcode offset rest ≡ plain_opcode offset rest opcode (opcode_name opcode)
unfolding disassemble_one
disassemble_one-plain opcode offset rest h = ground arith

-- An opcode of the table, listed by its name.
Emits-plain :
    (opcode : ℕ) (name : String)
    → opcode_name opcode ≡ some name
    → 0x60 < opcode
    → Emits (opcode ∷ []) (name ∷ [])
unfolding plain_opcode
Emits-plain opcode name e h =
    Emits-one opcode [] name
      λ offset rest b. rw (disassemble_one-plain opcode offset rest h, e, add-zero)

plain :
    (opcode : ℕ) (name : String)
    → opcode_name opcode ≡ some name
    → 0x60 < opcode
    → (out r : List ℕ) → ◌≡◌ {A = Result CodegenError (List ℕ)} (ok (out ++ opcode ∷ [])) (ok r)
    → Writes out (name ∷ []) r
plain opcode name e h out r = Writes-byte opcode name out r (Emits-plain opcode name e h)

Writes-append :
    (out r c : List ℕ) (es fs : List String)
    → Writes out es r
    → Emits c fs
    → Writes out (es ++ fs) (r ++ c)
Writes-append out r c es fs (code, e, em) em' =
    (code ++ c, rw e (append_assoc out code c), Emits-append code c es fs em em')

-- A number, then opcodes.
number_then-Writes :
    (n : ℕ) (span : Span) (out r : List ℕ) {c : List ℕ} {fs : List String}
    → Emits c fs
    → (encode_u64 n span out >>= λ out'. ok (out' ++ c)) ≡ ok r
    → Writes out (number_entry n ∷ fs) r
number_then-Writes n span out r {c} {fs} em h =
    let (out', e, last) = >>=-eq-ok (encode_u64 n span out) _ h in
    rw (← ok-injective last)
      (Writes-append out out' c (number_entry n ∷ []) fs (encode_u64-Writes n span out out' e) em)

encode_indexed-Writes :
    (opcode : ℕ) (name : String) (i : ℕ) (out r : List ℕ)
    → Emits (opcode ∷ []) (name ∷ [])
    → encode_indexed opcode i out ≡ ok r
    → Writes out (number_entry i ∷ name ∷ []) r
unfolding encode_indexed
encode_indexed-Writes opcode name i out r em h = number_then-Writes i _ out r em h

Emits-lock : Emits (0xb0 ∷ 0x51 ∷ []) ("OP_CHECKLOCKTIMEVERIFY" ∷ "OP_1" ∷ [])
unfolding opcode_name decimal
Emits-lock =
    Emits-append (0xb0 ∷ []) (0x51 ∷ []) ("OP_CHECKLOCKTIMEVERIFY" ∷ []) ("OP_1" ∷ [])
      (Emits-plain 0xb0 "OP_CHECKLOCKTIMEVERIFY" refl (omega arith))
      (Emits-small 1 (omega arith) (omega arith))

encode_kind-Writes :
    (k : InstructionKind) (span : Span) (out r : List ℕ)
    → encode_kind k span out ≡ ok r
    → Writes out (kind_entries k) r
unfolding encode_kind kind_entries opcode_name
encode_kind-Writes (InstructionKind.push v) span out r h = encode_push-Writes v span out r h
encode_kind-Writes InstructionKind.drop span out r h =
    plain 0x75 "OP_DROP" refl (omega arith) out r h
encode_kind-Writes InstructionKind.dup span out r h = plain 0x76 "OP_DUP" refl (omega arith) out r h
encode_kind-Writes (InstructionKind.input_value i) span out r h =
    encode_indexed-Writes 0xbe "OP_TXINPUTAMOUNT" i out r
      (Emits-plain 0xbe "OP_TXINPUTAMOUNT" refl (omega arith)) h
encode_kind-Writes (InstructionKind.input_script i) span out r h =
    encode_indexed-Writes 0xbf "OP_TXINPUTSPK" i out r
      (Emits-plain 0xbf "OP_TXINPUTSPK" refl (omega arith)) h
encode_kind-Writes (InstructionKind.output_value i) span out r h =
    encode_indexed-Writes 0xc2 "OP_TXOUTPUTAMOUNT" i out r
      (Emits-plain 0xc2 "OP_TXOUTPUTAMOUNT" refl (omega arith)) h
encode_kind-Writes (InstructionKind.output_script i) span out r h =
    encode_indexed-Writes 0xc3 "OP_TXOUTPUTSPK" i out r
      (Emits-plain 0xc3 "OP_TXOUTPUTSPK" refl (omega arith)) h
encode_kind-Writes InstructionKind.output_count span out r h =
    plain 0xb4 "OP_TXOUTPUTCOUNT" refl (omega arith) out r h
encode_kind-Writes InstructionKind.input_count span out r h =
    plain 0xb3 "OP_TXINPUTCOUNT" refl (omega arith) out r h
encode_kind-Writes (InstructionKind.check_sig _) span out r h =
    plain 0xac "OP_CHECKSIG" refl (omega arith) out r h
encode_kind-Writes (InstructionKind.check_multi_sig _ n) span out r h =
    number_then-Writes n span out r (Emits-plain 0xae "OP_CHECKMULTISIG" refl (omega arith)) h
encode_kind-Writes (InstructionKind.check_lock_height height) span out r h =
    number_then-Writes height span out r Emits-lock h
encode_kind-Writes (InstructionKind.check_lock_time height) span out r h =
    number_then-Writes height span out r Emits-lock h
encode_kind-Writes InstructionKind.check_lock_height_from_stack span out r h =
    (_, sym (ok-injective h), Emits-lock)
encode_kind-Writes InstructionKind.check_lock_time_from_stack span out r h =
    (_, sym (ok-injective h), Emits-lock)
encode_kind-Writes InstructionKind.sha256 span out r h =
    plain 0xa8 "OP_SHA256" refl (omega arith) out r h
encode_kind-Writes InstructionKind.blake2b span out r h =
    plain 0xaa "OP_BLAKE2B" refl (omega arith) out r h
encode_kind-Writes InstructionKind.verify span out r h =
    plain 0x69 "OP_VERIFY" refl (omega arith) out r h
encode_kind-Writes InstructionKind.equal span out r h =
    plain 0x87 "OP_EQUAL" refl (omega arith) out r h
encode_kind-Writes InstructionKind.not_equal span out r h =
    plain 0x9e "OP_NUMNOTEQUAL" refl (omega arith) out r h
encode_kind-Writes InstructionKind.greater_than span out r h =
    plain 0xa0 "OP_GREATERTHAN" refl (omega arith) out r h
encode_kind-Writes InstructionKind.greater_than_or_equal span out r h =
    plain 0xa2 "OP_GREATERTHANOREQUAL" refl (omega arith) out r h
encode_kind-Writes InstructionKind.less_than span out r h =
    plain 0x9f "OP_LESSTHAN" refl (omega arith) out r h
encode_kind-Writes InstructionKind.less_than_or_equal span out r h =
    plain 0xa1 "OP_LESSTHANOREQUAL" refl (omega arith) out r h
encode_kind-Writes InstructionKind.and span out r h =
    plain 0x9a "OP_BOOLAND" refl (omega arith) out r h
encode_kind-Writes InstructionKind.or span out r h =
    plain 0x9b "OP_BOOLOR" refl (omega arith) out r h
encode_kind-Writes InstructionKind.negation span out r h =
    plain 0x91 "OP_NOT" refl (omega arith) out r h
encode_kind-Writes InstructionKind.add span out r h = plain 0x93 "OP_ADD" refl (omega arith) out r h
encode_kind-Writes InstructionKind.sub span out r h = plain 0x94 "OP_SUB" refl (omega arith) out r h
encode_kind-Writes InstructionKind.covenant_depth span out r h = absurd (err-ne-ok h)
encode_kind-Writes InstructionKind.covenant_id span out r h = absurd (err-ne-ok h)
encode_kind-Writes InstructionKind.zk_verify_groth16 span out r h = absurd (err-ne-ok h)
encode_kind-Writes InstructionKind.zk_verify_risc_zero span out r h = absurd (err-ne-ok h)
encode_kind-Writes InstructionKind.sequencing_commitment span out r h = absurd (err-ne-ok h)
encode_kind-Writes InstructionKind.hash160 span out r h = absurd (err-ne-ok h)
encode_kind-Writes InstructionKind.check_hash_preimage span out r h = absurd (err-ne-ok h)
encode_kind-Writes InstructionKind.mul span out r h = absurd (err-ne-ok h)
encode_kind-Writes InstructionKind.div span out r h = absurd (err-ne-ok h)
encode_kind-Writes InstructionKind.modulo span out r h = absurd (err-ne-ok h)

pub encode_sequence-Writes :
    (is : List Instruction) (out r : List ℕ)
    → encode_instruction_sequence_into is out ≡ ok r
    → Writes out (listing is) r
unfolding encode_instruction_sequence_into encode_instruction listing
encode_sequence-Writes [] out r h = ([], rw (append-nil, ok-injective h), Emits-nil)
encode_sequence-Writes (i ∷ is) out r h =
    let (out', e, more) = >>=-eq-ok (encode_kind i.kind i.span out) _ h in
    let (c, p, em) = encode_kind-Writes i.kind i.span out out' e in
    let (d, q, em') = encode_sequence-Writes is out' r more in
    (c ++ d, q ∙ ap (λ x. x ++ d) p ∙ append_assoc out c d, Emits-append c d _ _ em em')

-- Code that is listed as `entries` disassembles to them.
pub Emits-disassemble :
    (code : List ℕ) (entries : List String)
    → Emits code entries
    → length code < 2 ^ 64
    → disassemble code ≡ ok entries
unfolding disassemble
Emits-disassemble code entries em h =
    let spare = length code - length entries in
    let fuel : length code ≡ length entries + spare = omega (arith, em.size) in
    rw fuel (simp append-nil at (em.lists spare 0 [] (omega arith)))

-- Where an instruction sequence compiles to fewer than 2^64 bytes, the disassembler lists them as
-- `listing` lists the instructions.
pub disassemble-compile :
    (is : List Instruction) {bytecode : List ℕ}
    → compile_instruction_sequence is ≡ ok bytecode
    → length bytecode < 2 ^ 64
    → disassemble bytecode ≡ ok (listing is)
unfolding compile_instruction_sequence
disassemble-compile is {bytecode} h fits =
    let (code, e, em) = encode_sequence-Writes is [] bytecode h in
    rw e (Emits-disassemble code (listing is) em (rw (← e) fits))

-- Where a spend's script is compiled, to fewer than 2^64 bytes, it is listed as its instructions and
-- the closing `OP_1`.
pub disassemble-compile_spend_script :
    (is : List Instruction) {bytecode : List ℕ}
    → compile_spend_script is ≡ ok bytecode
    → length bytecode < 2 ^ 64
    → disassemble bytecode ≡ ok (listing is ++ "OP_1" ∷ [])
unfolding compile_spend_script compile_instruction_sequence decimal
disassemble-compile_spend_script [] h fits = absurd (err-ne-ok h)
disassemble-compile_spend_script (i ∷ is) {bytecode} h fits =
    let (out, e, last) = >>=-eq-ok (encode_instruction_sequence_into (i ∷ is) []) _ h in
    let body = encode_sequence-Writes (i ∷ is) [] out e in
    let closing = Emits-small 1 (omega arith) (omega arith) in
    let (code, p, em) =
      Writes-append [] out (0x51 ∷ []) (listing (i ∷ is)) ("OP_1" ∷ []) body closing in
    let same : bytecode ≡ code = sym (ok-injective last) ∙ p in
    rw same (Emits-disassemble code _ em (rw (← same) fits))
