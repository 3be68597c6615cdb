-- ===== src/Codegen/Disassemble/Total.antt =====
-- compiler/codegen/src/lib.rs: the loop of the disassembler ends on any bytes.
use Prim.Native.String
use kaspa_script.Prelude.{
  ℕ, zero, suc, ◌+◌, ◌^◌, ◌≤◌, String, Bool, true, false, List, [], ◌∷◌, Option, none, some, length,
  drop, leb, ltb, ◌==◌, ◌&&◌, arith, if◌then◌else◌,
}
use kaspa_script.Prelude.Fault.{Result, ok, err, ◌>>=◌}
use kaspa_script.Prelude.Text.{decimal}
use kaspa_script.Codegen.Target.{CodegenError, invalid_bytecode}
use kaspa_script.Codegen.Opcode.{opcode_name}
use kaspa_script.Codegen.Disassemble.{
  Read, read_push_data, read_len_u8, read_len_u16, read_len_u32, read_sized, plain_opcode,
  disassemble_one, disassemble_loop, disassemble,
}

-- A read that leaves at most `n` bytes, or finds the bytecode invalid.
data Moves {A : Type 0} (n : ℕ) : Read A → Type 0 where
  moved : {a : A} {offset : ℕ} {rest : List ℕ} → length rest ≤ n → Moves n (ok (a, offset, rest))
  failed : {offset : ℕ} {message : String} → Moves n (err (invalid_bytecode offset message))

-- A listing, or an error at an offset.
pub data Ends : Result CodegenError (List String) → Type 0 where
  listed : {asm : List String} → Ends (ok asm)
  invalid : {offset : ℕ} {message : String} → Ends (err (invalid_bytecode offset message))

length-drop-le : (n : ℕ) (xs : List ℕ) → length (drop n xs) ≤ length xs
length-drop-le zero xs = omega arith
length-drop-le (suc n) [] = omega arith
length-drop-le (suc n) (x ∷ xs) = omega (arith, length-drop-le n xs)

Moves-if :
    {A : Type 0} (n : ℕ) (b : Bool) {x y : Read A}
    → Moves n x
    → Moves n y
    → Moves n (if b then x else y)
Moves-if n true p q = p
Moves-if n false p q = q

read_push_data-Moves :
    (n offset : ℕ) (rest : List ℕ) (len : ℕ)
    → length rest ≤ n
    → Moves n (read_push_data offset rest len)
unfolding read_push_data
read_push_data-Moves n offset rest len h = Moves-if n (leb (2 ^ 64) (offset + len)) failed (
    Moves-if n (ltb (length rest) len) failed
      (moved {rest = drop len rest} (omega (arith, length-drop-le len rest))))

read_len_u8-Moves :
    (n offset : ℕ) (rest : List ℕ) → length rest ≤ n → Moves n (read_len_u8 offset rest)
unfolding read_len_u8
read_len_u8-Moves n offset [] h = failed
read_len_u8-Moves n offset (a ∷ rest) h = moved (omega arith)

read_len_u16-Moves :
    (n offset : ℕ) (rest : List ℕ) → length rest ≤ n → Moves n (read_len_u16 offset rest)
unfolding read_len_u16
read_len_u16-Moves n offset [] h = failed
read_len_u16-Moves n offset (a ∷ []) h = failed
read_len_u16-Moves n offset (a ∷ b ∷ rest) h = moved (omega arith)

read_len_u32-Moves :
    (n offset : ℕ) (rest : List ℕ) → length rest ≤ n → Moves n (read_len_u32 offset rest)
unfolding read_len_u32
read_len_u32-Moves n offset [] h = failed
read_len_u32-Moves n offset (a ∷ []) h = failed
read_len_u32-Moves n offset (a ∷ b ∷ []) h = failed
read_len_u32-Moves n offset (a ∷ b ∷ c ∷ []) h = failed
read_len_u32-Moves n offset (a ∷ b ∷ c ∷ d ∷ rest) h = moved (omega arith)

Moves-entry :
    (n : ℕ) (f : List ℕ → String) {m : Read (List ℕ)}
    → Moves n m
    → Moves n (m >>= λ (payload, offset, rest). ok (f payload, offset, rest))
Moves-entry n f (moved h) = moved h
Moves-entry n f failed = failed

read_sized-Moves : (n : ℕ) (name : String) {m : Read ℕ} → Moves n m → Moves n (read_sized name m)
unfolding read_sized
read_sized-Moves n name (moved {a} {offset} {rest} h) =
    Moves-entry n _ (read_push_data-Moves n offset rest a h)
read_sized-Moves n name failed = failed

plain_opcode-Moves :
    (n offset : ℕ) (rest : List ℕ) (opcode : ℕ) (o : Option String)
    → length rest ≤ n
    → Moves n (plain_opcode offset rest opcode o)
unfolding plain_opcode
plain_opcode-Moves n offset rest opcode none h = failed
plain_opcode-Moves n offset rest opcode (some name) h = moved h

disassemble_one-Moves :
    (opcode offset : ℕ) (rest : List ℕ) → Moves (length rest) (disassemble_one opcode offset rest)
unfolding disassemble_one
disassemble_one-Moves opcode offset rest =
    let n = length rest in
    let h : length rest ≤ n = omega arith in
    Moves-if n (opcode == 0x00) (moved h) (
      Moves-if n (leb opcode 0x4b)
        (read_sized-Moves n (String.◌++◌ "OP_DATA_" (decimal opcode)) (moved h))
        (Moves-if n (opcode == 0x4c)
          (read_sized-Moves n "OP_PUSHDATA1" (read_len_u8-Moves n offset rest h))
          (Moves-if n (opcode == 0x4d)
            (read_sized-Moves n "OP_PUSHDATA2" (read_len_u16-Moves n offset rest h))
            (Moves-if n (opcode == 0x4e)
              (read_sized-Moves n "OP_PUSHDATA4" (read_len_u32-Moves n offset rest h))
              (Moves-if n (opcode == 0x4f) (moved h) (
                Moves-if n (leb 0x51 opcode && leb opcode 0x60) (moved h)
                  (plain_opcode-Moves n offset rest opcode (opcode_name opcode) h)))))))

Ends-entry :
    (entry : String) {m : Result CodegenError (List String)}
    → Ends m
    → Ends (m >>= λ asm. ok (entry ∷ asm))
Ends-entry entry listed = listed
Ends-entry entry invalid = invalid

-- The loop from a state that a round left.
Ends-round :
    (f n : ℕ) {m : Read String}
    → Moves n m
    → ((offset : ℕ) (rest : List ℕ) → length rest ≤ n → Ends (disassemble_loop f offset rest))
    → Ends
        (m >>= λ (entry, offset, rest). disassemble_loop f offset rest >>= λ asm. ok (entry ∷ asm))
Ends-round f n (moved {a} {offset} {rest} h) loop = Ends-entry a (loop offset rest h)
Ends-round f n failed loop = invalid

disassemble_loop-Ends :
    (f offset : ℕ) (bytes : List ℕ) → length bytes ≤ f → Ends (disassemble_loop f offset bytes)
unfolding disassemble_loop
disassemble_loop-Ends zero offset [] h = listed
disassemble_loop-Ends (suc f) offset [] h = listed
disassemble_loop-Ends zero offset (b ∷ bytes) h = absurd (omega arith)
disassemble_loop-Ends (suc f) offset (b ∷ bytes) h =
    Ends-round f (length bytes) (disassemble_one-Moves b (offset + 1) bytes)
      (λ offset' rest k. disassemble_loop-Ends f offset' rest (omega arith))

-- The disassembler ends on any bytes: it lists them, or reports an offset where they are invalid.
pub disassemble-Ends : (bytecode : List ℕ) → Ends (disassemble bytecode)
unfolding disassemble
disassemble-Ends bytecode = disassemble_loop-Ends (length bytecode) 0 bytecode (omega arith)
