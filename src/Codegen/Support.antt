-- ===== src/Codegen/Support.antt =====
-- The backend's registry agrees with the encoder: what it calls unsupported is what is refused.
use kaspa_script.Prelude.{
  ℕ, ◌-◌, ◌^◌, ◌≡◌, ◌⊎◌, inl, inr, refl, String, Bool, true, false, List, ◌++◌, length, leb, ltb,
  ◌==◌, if◌then◌else◌,
}
use kaspa_script.Prelude.Fault.{ok, err, ◌>>=◌}
use kaspa_script.Syntax.Token.{Span, type_text}
use kaspa_script.Prelude.Text.{as_bytes}
use kaspa_script.Ir.Instruction.{InstructionKind, Value}
use kaspa_script.Codegen.Target.{verified, unsupported, value_too_large}
use kaspa_script.Codegen.Grounding.{record_for_instruction, instruction_id}
use kaspa_script.Codegen.Push.{
  Code, script_number, data_header, encode_data, encode_u64, encode_push, encode_indexed,
}
use kaspa_script.Codegen.Encode.{encode_kind, unsupported_error}

-- Written, or refused for its size alone.
pub data Fits : Code → Type 0 where
  done : {r : List ℕ} → Fits (ok r)
  too_large : {span : Span} {message : String} → Fits (err (value_too_large span message))

Fits-if : (b : Bool) {x y : Code} → Fits x → Fits y → Fits (if b then x else y)
Fits-if true p q = p
Fits-if false p q = q

Fits-bind : {m : Code} (f : List ℕ → List ℕ) → Fits m → Fits (m >>= λ r. ok (f r))
Fits-bind f done = done
Fits-bind f too_large = too_large

encode_data-Fits : (bytes : List ℕ) (span : Span) (out : List ℕ) → Fits (encode_data bytes span out)
unfolding encode_data data_header
encode_data-Fits bytes span out =
    let n = length bytes in
    Fits-bind (λ header. out ++ (header ++ bytes))
      (Fits-if (leb n 75) done (
        Fits-if (leb n 255) done
          (Fits-if (leb n 65535) done (Fits-if (ltb n (2 ^ 32)) done too_large))))

encode_u64-Fits : (n : ℕ) (span : Span) (out : List ℕ) → Fits (encode_u64 n span out)
unfolding encode_u64
encode_u64-Fits n span out =
    Fits-if (ltb (2 ^ 63 - 1) n) too_large (
      Fits-if (n == 0) done (Fits-if (leb n 16) done (encode_data-Fits (script_number n) span out)))

encode_push-Fits : (v : Value) (span : Span) (out : List ℕ) → Fits (encode_push v span out)
unfolding encode_push
encode_push-Fits (Value.integer n) span out = encode_u64-Fits n span out
encode_push-Fits (Value.bool b) span out = done
encode_push-Fits (Value.bytes b) span out = encode_data-Fits b span out
encode_push-Fits (Value.string s) span out = encode_data-Fits (as_bytes s) span out
encode_push-Fits (Value.symbol s) span out = encode_data-Fits (as_bytes s) span out
encode_push-Fits (Value.type ty) span out = encode_data-Fits (as_bytes (type_text ty)) span out

encode_then :
    (n : ℕ) (span : Span) (out c : List ℕ) → Fits (encode_u64 n span out >>= λ r. ok (r ++ c))
encode_then n span out c = Fits-bind (λ r. r ++ c) (encode_u64-Fits n span out)

status-push : (v : Value) → (record_for_instruction (InstructionKind.push v)).status ≡ verified
unfolding record_for_instruction
status-push (Value.integer _) = refl
status-push (Value.bool _) = refl
status-push _ = refl

-- Each instruction's record is verified, and then the encoder refuses it for its size at most; or
-- unsupported, and then the encoder refuses it with that record.
pub encode_kind-by_status :
    (k : InstructionKind) (span : Span) (out : List ℕ)
    → (((record_for_instruction k).status ≡ verified) × Fits (encode_kind k span out))
      ⊎ (((record_for_instruction k).status ≡ unsupported)
          × (encode_kind k span out ≡ err (unsupported_error (record_for_instruction k))))
unfolding record_for_instruction encode_kind encode_indexed
encode_kind-by_status (InstructionKind.push v) span out =
    inl (status-push v, encode_push-Fits v span out)
encode_kind-by_status InstructionKind.drop span out = inl (refl, done)
encode_kind-by_status InstructionKind.dup span out = inl (refl, done)
encode_kind-by_status (InstructionKind.input_value i) span out = inl (refl, encode_then i _ out _)
encode_kind-by_status (InstructionKind.input_script i) span out = inl (refl, encode_then i _ out _)
encode_kind-by_status (InstructionKind.output_value i) span out = inl (refl, encode_then i _ out _)
encode_kind-by_status (InstructionKind.output_script i) span out = inl (refl, encode_then i _ out _)
encode_kind-by_status InstructionKind.output_count span out = inl (refl, done)
encode_kind-by_status InstructionKind.input_count span out = inl (refl, done)
encode_kind-by_status (InstructionKind.check_sig _) span out = inl (refl, done)
encode_kind-by_status (InstructionKind.check_multi_sig _ n) span out =
    inl (refl, encode_then n span out _)
encode_kind-by_status (InstructionKind.check_lock_height h) span out =
    inl (refl, encode_then h span out _)
encode_kind-by_status (InstructionKind.check_lock_time h) span out =
    inl (refl, encode_then h span out _)
encode_kind-by_status InstructionKind.check_lock_height_from_stack span out = inl (refl, done)
encode_kind-by_status InstructionKind.check_lock_time_from_stack span out = inl (refl, done)
encode_kind-by_status InstructionKind.sha256 span out = inl (refl, done)
encode_kind-by_status InstructionKind.blake2b span out = inl (refl, done)
encode_kind-by_status InstructionKind.verify span out = inl (refl, done)
encode_kind-by_status InstructionKind.equal span out = inl (refl, done)
encode_kind-by_status InstructionKind.not_equal span out = inl (refl, done)
encode_kind-by_status InstructionKind.greater_than span out = inl (refl, done)
encode_kind-by_status InstructionKind.greater_than_or_equal span out = inl (refl, done)
encode_kind-by_status InstructionKind.less_than span out = inl (refl, done)
encode_kind-by_status InstructionKind.less_than_or_equal span out = inl (refl, done)
encode_kind-by_status InstructionKind.and span out = inl (refl, done)
encode_kind-by_status InstructionKind.or span out = inl (refl, done)
encode_kind-by_status InstructionKind.negation span out = inl (refl, done)
encode_kind-by_status InstructionKind.add span out = inl (refl, done)
encode_kind-by_status InstructionKind.sub span out = inl (refl, done)
encode_kind-by_status InstructionKind.covenant_depth span out = inr (refl, refl)
encode_kind-by_status InstructionKind.covenant_id span out = inr (refl, refl)
encode_kind-by_status InstructionKind.zk_verify_groth16 span out = inr (refl, refl)
encode_kind-by_status InstructionKind.zk_verify_risc_zero span out = inr (refl, refl)
encode_kind-by_status InstructionKind.sequencing_commitment span out = inr (refl, refl)
encode_kind-by_status InstructionKind.hash160 span out = inr (refl, refl)
encode_kind-by_status InstructionKind.check_hash_preimage span out = inr (refl, refl)
encode_kind-by_status InstructionKind.mul span out = inr (refl, refl)
encode_kind-by_status InstructionKind.div span out = inr (refl, refl)
encode_kind-by_status InstructionKind.modulo span out = inr (refl, refl)

-- Every instruction has a record of its own: none falls back to the unknown opcode.
pub id-record_for_instruction :
    (k : InstructionKind) → (record_for_instruction k).id ≡ instruction_id k
unfolding record_for_instruction instruction_id
id-record_for_instruction (InstructionKind.push (Value.integer _)) = refl
id-record_for_instruction (InstructionKind.push (Value.bool _)) = refl
id-record_for_instruction (InstructionKind.push (Value.bytes _)) = refl
id-record_for_instruction (InstructionKind.push (Value.string _)) = refl
id-record_for_instruction (InstructionKind.push (Value.symbol _)) = refl
id-record_for_instruction (InstructionKind.push (Value.type _)) = refl
id-record_for_instruction InstructionKind.drop = refl
id-record_for_instruction InstructionKind.dup = refl
id-record_for_instruction (InstructionKind.input_value i) = refl
id-record_for_instruction (InstructionKind.input_script i) = refl
id-record_for_instruction (InstructionKind.output_value i) = refl
id-record_for_instruction (InstructionKind.output_script i) = refl
id-record_for_instruction InstructionKind.output_count = refl
id-record_for_instruction InstructionKind.input_count = refl
id-record_for_instruction (InstructionKind.check_sig _) = refl
id-record_for_instruction (InstructionKind.check_multi_sig _ key_count) = refl
id-record_for_instruction (InstructionKind.check_lock_height h) = refl
id-record_for_instruction (InstructionKind.check_lock_time h) = refl
id-record_for_instruction InstructionKind.check_lock_height_from_stack = refl
id-record_for_instruction InstructionKind.check_lock_time_from_stack = refl
id-record_for_instruction InstructionKind.sha256 = refl
id-record_for_instruction InstructionKind.blake2b = refl
id-record_for_instruction InstructionKind.verify = refl
id-record_for_instruction InstructionKind.equal = refl
id-record_for_instruction InstructionKind.not_equal = refl
id-record_for_instruction InstructionKind.greater_than = refl
id-record_for_instruction InstructionKind.greater_than_or_equal = refl
id-record_for_instruction InstructionKind.less_than = refl
id-record_for_instruction InstructionKind.less_than_or_equal = refl
id-record_for_instruction InstructionKind.and = refl
id-record_for_instruction InstructionKind.or = refl
id-record_for_instruction InstructionKind.negation = refl
id-record_for_instruction InstructionKind.add = refl
id-record_for_instruction InstructionKind.sub = refl
id-record_for_instruction InstructionKind.covenant_depth = refl
id-record_for_instruction InstructionKind.covenant_id = refl
id-record_for_instruction InstructionKind.zk_verify_groth16 = refl
id-record_for_instruction InstructionKind.zk_verify_risc_zero = refl
id-record_for_instruction InstructionKind.sequencing_commitment = refl
id-record_for_instruction InstructionKind.hash160 = refl
id-record_for_instruction InstructionKind.check_hash_preimage = refl
id-record_for_instruction InstructionKind.mul = refl
id-record_for_instruction InstructionKind.div = refl
id-record_for_instruction InstructionKind.modulo = refl
