-- ===== src/Codegen/Disassemble.antt =====
-- compiler/codegen/src/lib.rs: hexadecimal text and the disassembler. The cursor into the bytecode
-- is the offset, with the bytes that are left.
pub mod Total
use Prim.Native.String
use kaspa_script.Prelude.{
  ℕ, zero, suc, ◌+◌, ◌-◌, ◌*◌, ◌/◌, ◌%◌, ◌^◌, String, List, [], ◌∷◌, Option, none, some, length,
  take, drop, ltb, leb, ◌==◌, ◌&&◌, if◌then◌else◌,
}
use kaspa_script.Prelude.Fault.{Result, ok, err, ◌>>=◌}
use kaspa_script.Prelude.Text.{digit, decimal}
use kaspa_script.Codegen.Target.{CodegenError, invalid_bytecode, empty_bytecode, out_of_fuel}
use kaspa_script.Codegen.Opcode.{opcode_name}

infixr 65 ◌+++◌
abbrev ◌+++◌ : String → String → String
s +++ t = String.◌++◌ s t

unfoldable pub bytecode_hex : List ℕ → String
bytecode_hex [] = ""
bytecode_hex (b ∷ bs) = String.◌∷◌ (digit (b / 16)) (String.◌∷◌ (digit (b % 16)) (bytecode_hex bs))

abbrev pub Read : Type 0 → Type 0
Read A = Result CodegenError (A × ℕ × List ℕ)

unfoldable pub read_push_data : ℕ → List ℕ → ℕ → Read (List ℕ)
read_push_data offset rest len =
    if leb (2 ^ 64) (offset + len)
    then err (invalid_bytecode offset "push length overflow")
    else if ltb (length rest) len
    then err (invalid_bytecode offset "push data exceeds bytecode length")
    else ok (take len rest, offset + len, drop len rest)

unfoldable pub read_len_u8 : ℕ → List ℕ → Read ℕ
read_len_u8 offset (a ∷ rest) = ok (a, offset + 1, rest)
read_len_u8 offset [] = err (invalid_bytecode offset "missing OP_PUSHDATA1 length")

unfoldable pub read_len_u16 : ℕ → List ℕ → Read ℕ
read_len_u16 offset (a ∷ b ∷ rest) = ok (a + 256 * b, offset + 2, rest)
read_len_u16 offset _ = err (invalid_bytecode offset "missing OP_PUSHDATA2 length")

unfoldable pub read_len_u32 : ℕ → List ℕ → Read ℕ
read_len_u32 offset (a ∷ b ∷ c ∷ d ∷ rest) =
    ok (a + 256 * (b + 256 * (c + 256 * d)), offset + 4, rest)
read_len_u32 offset _ = err (invalid_bytecode offset "missing OP_PUSHDATA4 length")

-- A length, then that many bytes, listed behind `name`.
unfoldable pub read_sized : String → Read ℕ → Read String
unfolding read_push_data bytecode_hex
read_sized name size = do
  (len, offset, rest) ← size
  (payload, offset', rest') ← read_push_data offset rest len
  ok (name +++ " 0x" +++ bytecode_hex payload, offset', rest')

-- The last arm of the match on the opcode, with `offset` already past it.
unfoldable pub plain_opcode : ℕ → List ℕ → ℕ → Option String → Read String
plain_opcode offset rest opcode (some name) = ok (name, offset, rest)
plain_opcode offset rest opcode none =
    err (invalid_bytecode (offset - 1) ("unknown opcode 0x" +++ bytecode_hex (opcode ∷ [])))

-- One round of the loop, with `offset` already past the opcode.
unfoldable pub disassemble_one : ℕ → ℕ → List ℕ → Read String
unfolding read_sized read_len_u8 read_len_u16 read_len_u32 plain_opcode opcode_name decimal
disassemble_one opcode offset rest =
    if opcode == 0x00
    then ok ("OP_0", offset, rest)
    else if leb opcode 0x4b
    then read_sized ("OP_DATA_" +++ decimal opcode) (ok (opcode, offset, rest))
    else if opcode == 0x4c
    then read_sized "OP_PUSHDATA1" (read_len_u8 offset rest)
    else if opcode == 0x4d
    then read_sized "OP_PUSHDATA2" (read_len_u16 offset rest)
    else if opcode == 0x4e
    then read_sized "OP_PUSHDATA4" (read_len_u32 offset rest)
    else if opcode == 0x4f
    then ok ("OP_1NEGATE", offset, rest)
    else if leb 0x51 opcode && leb opcode 0x60
    then ok ("OP_" +++ decimal (opcode - 0x50), offset, rest)
    else plain_opcode offset rest opcode (opcode_name opcode)

unfoldable pub disassemble_loop : ℕ → ℕ → List ℕ → Result CodegenError (List String)
disassemble_loop f offset [] = ok []
disassemble_loop zero offset (_ ∷ _) = err out_of_fuel
disassemble_loop (suc f) offset (opcode ∷ rest) = do
  (entry, offset', rest') ← disassemble_one opcode (offset + 1) rest
  asm ← disassemble_loop f offset' rest'
  ok (entry ∷ asm)

-- Each round takes at least one byte.
unfoldable pub disassemble : List ℕ → Result CodegenError (List String)
unfolding disassemble_loop
disassemble bytecode = disassemble_loop (length bytecode) 0 bytecode

-- `verify_artifact`, on the artifact's bytecode
unfoldable pub verify_bytecode : List ℕ → Result CodegenError (Unit {0})
unfolding disassemble
verify_bytecode [] = err empty_bytecode
verify_bytecode (b ∷ bs) = do _ ← disassemble (b ∷ bs); ok tt
