-- ===== src/Codegen/Listing/Chunks.antt =====
-- How the disassembler reads the pieces of a script that the encoder writes.
use mathlib.Core.List.{append_assoc}
use native.Mathlib.Nat.{add-zero}
use Prim.Native.Nat.add
use kaspa_script.Prelude.{
  ℕ, suc, ◌+◌, ◌^◌, ◌≤◌, ◌<◌, ◌≡◌, refl, String, List, [], ◌∷◌, ◌++◌, length, length-append,
  take-length_append, drop-length_append, arith, leb-of_lt, ltb-of_le,
}
use kaspa_script.Prelude.Fault.{Result, ok, err, ◌>>=◌}
use kaspa_script.Codegen.Target.{CodegenError}
use kaspa_script.Codegen.Disassemble.{disassemble_loop, disassemble_one, read_push_data}

-- `code` is listed as `entries`, whatever stands in front of it and behind it.
pub record Emits (code : List ℕ) (entries : List String) : Type 0 where
  pub size : length entries ≤ length code
  pub lists :
      (f offset : ℕ) (rest : List ℕ)
      → offset + length code < 2 ^ 64
      → disassemble_loop (length entries + f) offset (code ++ rest)
        ≡ (disassemble_loop f (offset + length code) rest >>= λ asm. ok (entries ++ asm))

abbrev Listed : Type 0
Listed = Result CodegenError (List String)

prefix-nil : (m : Listed) → m ≡ (m >>= λ asm. ok ([] ++ asm))
prefix-nil (ok asm) = refl
prefix-nil (err e) = refl

prefix-append :
    (s t : List String) (m : Listed)
    → ((m >>= λ asm. ok (t ++ asm)) >>= λ asm. ok (s ++ asm)) ≡ (m >>= λ asm. ok ((s ++ t) ++ asm))
prefix-append s t (ok asm) = rw append_assoc
prefix-append s t (err e) = refl

-- One opcode with its operand.
pub Emits-one :
    (opcode : ℕ) (operand : List ℕ) (entry : String)
    → ((offset : ℕ) (rest : List ℕ)
        → offset + length operand < 2 ^ 64
        → disassemble_one opcode offset (operand ++ rest)
          ≡ ok (entry, offset + length operand, rest))
    → Emits (opcode ∷ operand) (entry ∷ [])
unfolding disassemble_loop
Emits-one opcode operand entry h = record {
  size = omega arith;
  lists = λ f offset rest bound.
      let fuel : 1 + f ≡ suc f = omega arith in
      let place : offset + 1 + length operand ≡ offset + suc (length operand) = omega arith in
      rw (fuel, h (offset + 1) rest (omega arith), ← place);
}

pub Emits-nil : Emits [] []
Emits-nil = record {
  size = omega arith;
  lists = λ f offset rest bound. rw (add.zero, add-zero) (prefix-nil _);
}

pub Emits-append :
    (c d : List ℕ) (s t : List String) → Emits c s → Emits d t → Emits (c ++ d) (s ++ t)
Emits-append c d s t p q = record {
  size = omega (arith, length-append {0} c d, length-append {0} s t, p.size, q.size);
  lists = λ f offset rest bound.
      let fuel : length (s ++ t) + f ≡ length s + (length t + f) =
        omega (arith, length-append {0} s t) in
      let size : length (c ++ d) ≡ length c + length d = length-append c d in
      let place : offset + length (c ++ d) ≡ offset + length c + length d = omega (arith, size) in
      rw
        (
          fuel,
          append_assoc,
          p.lists (length t + f) offset (d ++ rest) (omega (arith, size)),
          q.lists f (offset + length c) rest (omega (arith, size)),
          place,
        )
        (prefix-append s t _);
}

-- A count of bytes, then that many bytes.
pub read_push_data-append :
    (offset : ℕ) (bytes rest : List ℕ)
    → offset + length bytes < 2 ^ 64
    → read_push_data offset (bytes ++ rest) (length bytes) ≡ ok (bytes, offset + length bytes, rest)
unfolding read_push_data
read_push_data-append offset bytes rest h =
    let fits = leb-of_lt (offset + length bytes) (2 ^ 64) h in
    let enough =
      ltb-of_le (length (bytes ++ rest)) (length bytes)
        (omega (arith, length-append {0} bytes rest)) in
    rw (fits, enough, take-length_append, drop-length_append)
