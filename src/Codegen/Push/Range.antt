-- ===== src/Codegen/Push/Range.antt =====
-- compiler/codegen/src/backends/toccata.rs: the numbers that can be pushed.
use kaspa_script.Prelude.{
  ℕ, ◌+◌, ◌-◌, ◌%◌, ◌^◌, ◌≤◌, ◌<◌, ◌≡◌, ◌⊎◌, inl, inr, refl, List, ◌++◌, length, leb, ltb,
  Bool-cases, [], ◌∷◌, lt→ltb, ltb→lt, le→leb, ltb-of_le, arith, ◌==◌,
}
use kaspa_script.Prelude.Fault.{ok, err}
use kaspa_script.Syntax.Token.{Span}
use kaspa_script.Codegen.Target.{value_too_large}
use kaspa_script.Codegen.Push.{Code, script_number, data_header, encode_data, encode_u64}
use kaspa_script.Codegen.Opcode.{op_false, op_1}
use kaspa_script.Codegen.Number.{script_number_lem}

short_data : (n : ℕ) (span : Span) → n ≤ 8 → data_header n span ≡ ok ((n % 2 ^ 8) ∷ [])
unfolding data_header
short_data n span h = rw (le→leb n 75 (omega arith)) refl

encode_data-small :
    (bytes : List ℕ) (span : Span) (out : List ℕ)
    → length bytes ≤ 8
    → encode_data bytes span out ≡ ok (out ++ ((length bytes % 2 ^ 8) ∷ bytes))
unfolding encode_data
encode_data-small bytes span out h = rw (short_data (length bytes) span h) refl

-- Written behind the output in at most nine bytes.
abbrev pub Written : List ℕ → Code → Type 0
Written out m = (code : List ℕ) × (m ≡ ok (out ++ code)) × (length code ≤ 9)

Written-number :
    (n : ℕ) (span : Span) (out : List ℕ) → n < 2 ^ 63 → Written out (encode_u64 n span out)
unfolding encode_u64
Written-number n span out h = elim (Bool-cases (n == 0)) [
  | inl zero_value ↦
      (op_false ∷ [], rw (ltb-of_le (2 ^ 63 - 1) n (omega arith), zero_value) refl, omega arith)
  | inr other ↦ elim (Bool-cases (leb n 16)) [
    | inl small ↦ (
      (op_1 + n % 2 ^ 8 - 1) ∷ [],
      rw (ltb-of_le (2 ^ 63 - 1) n (omega arith), other, small) refl,
      omega arith,
    )
    | inr large ↦
        let (_, _, size) = script_number_lem n h in
        (
          (length (script_number n) % 2 ^ 8) ∷ script_number n,
          rw (ltb-of_le (2 ^ 63 - 1) n (omega arith), other, large)
              (encode_data-small (script_number n) span out size),
          omega (arith, size),
        )
  ]
]

-- A number below 2^63 is pushed behind the output in at most nine bytes, and every other one is
-- refused as too large.
pub encode_u64-by_range :
    (n : ℕ) (span : Span) (out : List ℕ)
    → ((n < 2 ^ 63) × Written out (encode_u64 n span out))
      ⊎ ((2 ^ 63 ≤ n)
          × (encode_u64 n span out
              ≡ err (
                  value_too_large span
                    "positive script number exceeds the native signed 64-bit range")))
unfolding encode_u64
encode_u64-by_range n span out = elim (Bool-cases (ltb n (2 ^ 63))) [
  | inl fits ↦ let h = ltb→lt n (2 ^ 63) fits in inl (h, Written-number n span out h)
  | inr too_big ↦
      let h : 2 ^ 63 ≤ n = ground arith in inr (h, rw (lt→ltb (2 ^ 63 - 1) n (omega arith)) refl)
]
