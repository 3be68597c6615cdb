-- ===== src/Codegen/Push.antt =====
-- compiler/codegen/src/backends/toccata.rs: script numbers and pushes. A `Vec<u8>` that is written to
-- is passed in and returned; a failed write is dropped by every caller.
pub mod Range
use kaspa_script.Prelude.{
  ℕ, zero, suc, ◌+◌, ◌-◌, ◌/◌, ◌%◌, ◌^◌, Bool, false, List, [], ◌∷◌, ◌++◌, Option, none, some,
  length, take, ltb, leb, ◌==◌, if◌then◌else◌,
}
use kaspa_script.Prelude.Fault.{Result, ok, err, ◌>>=◌}
use kaspa_script.Prelude.Text.{as_bytes}
use kaspa_script.Syntax.Token.{Span, type_text}
use kaspa_script.Ir.Instruction.{Value}
use kaspa_script.Codegen.Target.{CodegenError, value_too_large}
use kaspa_script.Codegen.Opcode.{op_false, op_1, op_pushdata1, op_pushdata2, op_pushdata4}

abbrev pub Code : Type 0
Code = Result CodegenError (List ℕ)

-- `value.to_le_bytes()` of an integer of `n` bytes
unfoldable pub to_le_bytes : ℕ → ℕ → List ℕ
to_le_bytes zero v = []
to_le_bytes (suc n) v = (v % 256) ∷ to_le_bytes n (v / 256)

-- `bytes.iter().rposition(|byte| *byte != 0)`
unfoldable pub rposition_nonzero : List ℕ → Option ℕ
rposition_nonzero [] = none
rposition_nonzero (b ∷ bs) = elim (rposition_nonzero bs) [
  | some i ↦ some (suc i)
  | none ↦ if b == 0 then none else some 0
]

unfoldable pub trimmed_size : List ℕ → ℕ
unfolding rposition_nonzero
trimmed_size bytes = elim (rposition_nonzero bytes) [ some i ↦ i + 1 | none ↦ 0 ]

-- `bytes.last().is_some_and(|byte| byte & 0x80 != 0)`
unfoldable pub sign_bit_set : List ℕ → Bool
sign_bit_set [] = false
sign_bit_set (b ∷ []) = b / 128 % 2 == 1
sign_bit_set (_ ∷ b ∷ bs) = sign_bit_set (b ∷ bs)

-- The bytes that `encode_u64` pushes for a value above 16.
unfoldable pub script_number : ℕ → List ℕ
unfolding to_le_bytes trimmed_size sign_bit_set
script_number value =
    let bytes = to_le_bytes 8 value in
    let encoded = take (trimmed_size bytes) bytes in
    if sign_bit_set encoded then encoded ++ 0 ∷ [] else encoded

-- The opcode and the length in front of the data.
unfoldable pub data_header : ℕ → Span → Code
unfolding to_le_bytes
data_header len span =
    if leb len 75
    then ok ((len % 2 ^ 8) ∷ [])
    else if leb len 255
    then ok (op_pushdata1 ∷ (len % 2 ^ 8) ∷ [])
    else if leb len 65535
    then ok (op_pushdata2 ∷ to_le_bytes 2 (len % 2 ^ 16))
    else if ltb len (2 ^ 32)
    then ok (op_pushdata4 ∷ to_le_bytes 4 len)
    else err (value_too_large span "push value exceeds u32 length")

unfoldable pub encode_data : List ℕ → Span → List ℕ → Code
unfolding data_header
encode_data bytes span out = do
  header ← data_header (length bytes) span
  ok (out ++ (header ++ bytes))

unfoldable pub encode_u64 : ℕ → Span → List ℕ → Code
unfolding encode_data script_number
encode_u64 value span out =
    if ltb (2 ^ 63 - 1) value
    then err (value_too_large span "positive script number exceeds the native signed 64-bit range")
    else if value == 0
    then ok (out ++ op_false ∷ [])
    else if leb value 16
    then ok (out ++ (op_1 + value % 2 ^ 8 - 1) ∷ [])
    else encode_data (script_number value) span out

unfoldable pub encode_push : Value → Span → List ℕ → Code
unfolding encode_u64 encode_data as_bytes type_text
encode_push (Value.integer value) span out = encode_u64 value span out
encode_push (Value.bool value) span out = ok (out ++ (if value then op_1 else op_false) ∷ [])
encode_push (Value.bytes value) span out = encode_data value span out
encode_push (Value.string value) span out = encode_data (as_bytes value) span out
encode_push (Value.symbol value) span out = encode_data (as_bytes value) span out
encode_push (Value.type ty) span out = encode_data (as_bytes (type_text ty)) span out

unfoldable pub encode_indexed : ℕ → ℕ → List ℕ → Code
unfolding encode_u64
encode_indexed opcode index out = do
  out' ← encode_u64 index (record { start = 0; end = 0 }) out
  ok (out' ++ opcode ∷ [])
