-- ===== src/Codegen/Listing/Values.antt =====
-- What the encoder appends for a value is listed as that value.
use mathlib.Core.Path.{subst}
use native.Mathlib.Nat.{add-zero}
use Prim.Native.String
use kaspa_script.Prelude.Text.{decimal, as_bytes}
use kaspa_script.Prelude.{
  ℕ, ◌+◌, ◌-◌, ◌%◌, ◌^◌, ◌≤◌, ◌<◌, ◌≡◌, sym, String, true, false, List, [], ◌∷◌, ◌++◌, length,
  arith, leb, ltb, leb→le, ltb→lt, Bool-cases, inl, inr, ◌==◌,
}
use kaspa_script.Prelude.Fault.{Result, ok, >>=-eq-ok, ok-injective, err-ne-ok}
use kaspa_script.Syntax.Token.{Span, type_text}
use kaspa_script.Codegen.Target.{CodegenError}
use kaspa_script.Ir.Instruction.{Value}
use kaspa_script.Codegen.Push.{script_number, data_header, encode_data, encode_u64, encode_push}
use kaspa_script.Codegen.Disassemble.{disassemble_one}
use kaspa_script.Codegen.Listing.Entries.{data_entry, number_entry, value_entry}
use kaspa_script.Codegen.Listing.Chunks.{Emits, Emits-one}
use kaspa_script.Codegen.Listing.Pushes.{
  Emits-short, Emits-pushdata1, Emits-pushdata2, Emits-pushdata4,
}

-- The written bytes are the old ones, then code that is listed as `entries`.
abbrev pub Writes : List ℕ → List String → List ℕ → Type 0
Writes out entries r = (code : List ℕ) × (r ≡ out ++ code) × Emits code entries

Emits-zero : Emits (0 ∷ []) ("OP_0" ∷ [])
unfolding disassemble_one
Emits-zero = Emits-one 0 [] "OP_0" λ offset rest h. rw add-zero

-- The header that was computed is the one read.
same_header :
    (x bytes : List ℕ) (entries : List String) (header : List ℕ)
    → ◌≡◌ {A = Result CodegenError (List ℕ)} (ok x) (ok header)
    → Emits (x ++ bytes) entries
    → Emits (header ++ bytes) entries
same_header x bytes entries header e = subst (λ y. Emits (y ++ bytes) entries) (ok-injective e)

Emits-header :
    (bytes : List ℕ) (span : Span) (header : List ℕ)
    → data_header (length bytes) span ≡ ok header
    → Emits (header ++ bytes) (data_entry bytes ∷ [])
unfolding data_header data_entry
Emits-header [] span header h = same_header _ [] _ header h Emits-zero
Emits-header (b ∷ bs) span header h =
    let bytes = b ∷ bs in
    let n = length bytes in
    elim (Bool-cases (leb n 75)) [
      | inl small ↦
          let le = leb→le n 75 small in
          let n8 : n % 2 ^ 8 ≡ n = omega arith in
          rw small (
            same_header _ bytes _ header (rw (small, n8) at h) (Emits-short bytes (omega arith) le))
      | inr not_small ↦ elim (Bool-cases (leb n 255)) [
        | inl medium ↦
            let le = leb→le n 255 medium in
            let n8 : n % 2 ^ 8 ≡ n = omega arith in
            rw (not_small, medium)
              (same_header _ bytes _ header (rw (not_small, medium, n8) at h)
                (Emits-pushdata1 bytes))
        | inr not_medium ↦ elim (Bool-cases (leb n 65535)) [
          | inl large ↦
              rw (not_small, not_medium, large)
                (same_header _ bytes _ header (rw (not_small, not_medium, large) at h)
                  (Emits-pushdata2 bytes (leb→le n 65535 large)))
          | inr not_large ↦ elim (Bool-cases (ltb n (2 ^ 32))) [
            | inl huge ↦
                rw (not_small, not_medium, not_large)
                  (same_header _ bytes _ header (rw (not_small, not_medium, not_large, huge) at h)
                    (Emits-pushdata4 bytes (ltb→lt n (2 ^ 32) huge)))
            | inr too_large ↦
                absurd (err-ne-ok (rw (not_small, not_medium, not_large, too_large) at h))
          ]
        ]
      ]
    ]

pub encode_data-Writes :
    (bytes : List ℕ) (span : Span) (out r : List ℕ)
    → encode_data bytes span out ≡ ok r
    → Writes out (data_entry bytes ∷ []) r
unfolding encode_data
encode_data-Writes bytes span out r h =
    let (header, e, last) = >>=-eq-ok (data_header (length bytes) span) _ h in
    (header ++ bytes, sym (ok-injective last), Emits-header bytes span header e)

-- One byte that is an opcode by itself.
pub Writes-byte :
    (opcode : ℕ) (entry : String) (out r : List ℕ)
    → Emits (opcode ∷ []) (entry ∷ [])
    → ◌≡◌ {A = Result CodegenError (List ℕ)} (ok (out ++ opcode ∷ [])) (ok r)
    → Writes out (entry ∷ []) r
Writes-byte opcode entry out r em h = (opcode ∷ [], sym (ok-injective h), em)

-- The opcodes of the numbers from 1 to 16.
pos_of_ne : (n : ℕ) → (n == 0) ≡ false → 0 < n
pos_of_ne n h = ground arith

disassemble_one-small :
    (k offset : ℕ) (rest : List ℕ)
    → 0x51 ≤ k
    → k ≤ 0x60
    → disassemble_one k offset rest ≡ ok (String.◌++◌ "OP_" (decimal (k - 0x50)), offset, rest)
unfolding disassemble_one
disassemble_one-small k offset rest lo hi = ground arith

pub Emits-small :
    (n : ℕ)
    → 0 < n
    → n ≤ 16
    → Emits ((0x51 + n % 2 ^ 8 - 1) ∷ []) (String.◌++◌ "OP_" (decimal n) ∷ [])
Emits-small n pos small = Emits-one (0x51 + n % 2 ^ 8 - 1) [] _ λ offset rest h.
    let number : 0x51 + n % 2 ^ 8 - 1 - 0x50 ≡ n = omega arith in
    rw (
      disassemble_one-small (0x51 + n % 2 ^ 8 - 1) offset rest (omega arith) (omega arith),
      number,
      add-zero,
    )

pub encode_u64-Writes :
    (n : ℕ) (span : Span) (out r : List ℕ)
    → encode_u64 n span out ≡ ok r
    → Writes out (number_entry n ∷ []) r
unfolding encode_u64 number_entry
encode_u64-Writes n span out r h = elim (Bool-cases (ltb (2 ^ 63 - 1) n)) [
  | inl big ↦ absurd (err-ne-ok (rw big at h))
  | inr fits ↦ elim (Bool-cases (n == 0)) [
    | inl is_zero ↦ rw is_zero (Writes-byte 0 "OP_0" out r Emits-zero (rw (fits, is_zero) at h))
    | inr not_zero ↦ elim (Bool-cases (leb n 16)) [
      | inl small ↦
          rw (not_zero, small)
            (Writes-byte _ _ out r (Emits-small n (pos_of_ne n not_zero) (leb→le n 16 small))
              (rw (fits, not_zero, small) at h))
      | inr large ↦
          rw (not_zero, large)
            (encode_data-Writes (script_number n) span out r (rw (fits, not_zero, large) at h))
    ]
  ]
]

pub encode_push-Writes :
    (v : Value) (span : Span) (out r : List ℕ)
    → encode_push v span out ≡ ok r
    → Writes out (value_entry v ∷ []) r
unfolding encode_push value_entry decimal
encode_push-Writes (Value.integer n) span out r h = encode_u64-Writes n span out r h
encode_push-Writes (Value.bool true) span out r h =
    Writes-byte _ _ out r (Emits-small 1 (omega arith) (omega arith)) h
encode_push-Writes (Value.bool false) span out r h = Writes-byte _ _ out r Emits-zero h
encode_push-Writes (Value.bytes b) span out r h = encode_data-Writes b span out r h
encode_push-Writes (Value.string s) span out r h = encode_data-Writes (as_bytes s) span out r h
encode_push-Writes (Value.symbol s) span out r h = encode_data-Writes (as_bytes s) span out r h
encode_push-Writes (Value.type ty) span out r h =
    encode_data-Writes (as_bytes (type_text ty)) span out r h
