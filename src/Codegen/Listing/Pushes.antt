-- ===== src/Codegen/Listing/Pushes.antt =====
-- Data pushes and script numbers, read back by the disassembler.
use Prim.Native.String
use kaspa_script.Prelude.{
  ℕ, suc, ◌+◌, ◌*◌, ◌/◌, ◌%◌, ◌^◌, ◌≤◌, ◌<◌, ◌≡◌, String, false, List, [], ◌∷◌, ◌++◌, length, arith,
  le→leb, ◌==◌,
}
use kaspa_script.Prelude.Text.{decimal}
use kaspa_script.Prelude.Fault.{ok}
use kaspa_script.Codegen.Push.{to_le_bytes}
use kaspa_script.Codegen.Disassemble.{
  disassemble_one, read_sized, read_len_u8, read_len_u16, read_len_u32,
}
use kaspa_script.Codegen.Listing.Entries.{sized}
use kaspa_script.Codegen.Listing.Chunks.{Emits, Emits-one, read_push_data-append}

-- A size that was read is followed by the payload.
read_sized-payload :
    (name : String) (offset : ℕ) (bytes rest : List ℕ)
    → offset + length bytes < 2 ^ 64
    → read_sized name (ok (length bytes, offset, bytes ++ rest))
      ≡ ok (sized name bytes, offset + length bytes, rest)
unfolding read_sized
read_sized-payload name offset bytes rest h = rw (read_push_data-append offset bytes rest h)

==-zero_of_pos : (n : ℕ) → 0 < n → (n == 0) ≡ false
==-zero_of_pos n h = ground arith

pub Emits-short :
    (bytes : List ℕ)
    → 0 < length bytes
    → length bytes ≤ 75
    → Emits
        ((length bytes) ∷ bytes)
        (sized (String.◌++◌ "OP_DATA_" (decimal (length bytes))) bytes ∷ [])
unfolding disassemble_one
Emits-short bytes pos small = Emits-one (length bytes) bytes _ λ offset rest h.
    let n = length bytes in
    rw (==-zero_of_pos n pos, le→leb n 75 small) (read_sized-payload _ offset bytes rest h)

pub Emits-pushdata1 :
    (bytes : List ℕ) → Emits (0x4c ∷ length bytes ∷ bytes) (sized "OP_PUSHDATA1" bytes ∷ [])
unfolding disassemble_one read_len_u8
Emits-pushdata1 bytes = Emits-one 0x4c (length bytes ∷ bytes) _ λ offset rest h.
    let place : offset + 1 + length bytes ≡ offset + suc (length bytes) = omega arith in
    rw (← place) (read_sized-payload _ (offset + 1) bytes rest (omega arith))

pub Emits-pushdata2 :
    (bytes : List ℕ)
    → length bytes ≤ 65535
    → Emits
        (0x4d ∷ (to_le_bytes 2 (length bytes % 2 ^ 16) ++ bytes))
        (sized "OP_PUSHDATA2" bytes ∷ [])
unfolding disassemble_one read_len_u16 to_le_bytes
Emits-pushdata2 bytes small = Emits-one 0x4d _ _ λ offset rest h.
    let n = length bytes in
    let place : offset + 2 + n ≡ offset + suc (suc n) = omega arith in
    let size : n % 65536 % 256 + 256 * (n % 65536 / 256 % 256) ≡ n = omega arith in
    rw (← place, size) (read_sized-payload _ (offset + 2) bytes rest (omega arith))

pub Emits-pushdata4 :
    (bytes : List ℕ)
    → length bytes < 2 ^ 32
    → Emits (0x4e ∷ (to_le_bytes 4 (length bytes) ++ bytes)) (sized "OP_PUSHDATA4" bytes ∷ [])
unfolding disassemble_one read_len_u32 to_le_bytes
Emits-pushdata4 bytes small = Emits-one 0x4e _ _ λ offset rest h.
    let n = length bytes in
    let place : offset + 4 + n ≡ offset + suc (suc (suc (suc n))) = omega arith in
    let size : n % 256
          + 256 * (n / 256 % 256 + 256 * (n / 256 / 256 % 256 + 256 * (n / 256 / 256 / 256 % 256)))
        ≡ n =
      omega arith in
    rw (← place, size) (read_sized-payload _ (offset + 4) bytes rest (omega arith))
