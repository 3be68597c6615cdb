-- ===== src/Codegen/Number.antt =====
-- Script numbers: the engine's reading of the bytes that the encoder pushes for a number.
use native.Mathlib.Nat.{pow-suc}
use kaspa_script.Prelude.{
  ℕ, zero, suc, ◌+◌, ◌*◌, ◌/◌, ◌%◌, ◌^◌, ◌≤◌, ◌<◌, ◌≡◌, refl, sym, ap, ◌∙◌, Bool, true, false, List,
  [], ◌∷◌, ◌++◌, Option, none, some, All, length, length-append, take, arith, leb, leb→le,
  leb-false, Bool-cases, inl, inr, ◌==◌, ◌||◌, ◌⊎◌, ◌≢◌, not, if◌then◌else◌,
}
use kaspa_script.Codegen.Push.{
  to_le_bytes, rposition_nonzero, trimmed_size, sign_bit_set, script_number,
}

-- Little-endian bytes as a number.
unfoldable pub le_value : List ℕ → ℕ
le_value [] = 0
le_value (b ∷ bs) = b + 256 * le_value bs

-- The number read from a script's stack item; `none` where the sign bit makes it negative.
unfoldable pub decode_script_number : List ℕ → Option ℕ
unfolding sign_bit_set le_value
decode_script_number bytes = if sign_bit_set bytes then none else some (le_value bytes)

-- No shorter item reads the same: the last byte holds more than the sign, unless the byte below
-- it needs its own high bit.
unfoldable pub is_minimal : List ℕ → Bool
is_minimal [] = true
is_minimal (b ∷ []) = not (b % 128 == 0)
is_minimal (a ∷ b ∷ []) = not (b % 128 == 0) || a / 128 % 2 == 1
is_minimal (_ ∷ b ∷ c ∷ bs) = is_minimal (b ∷ c ∷ bs)

-- The bytes without the zeros at the end.
strip_byte : ℕ → List ℕ → List ℕ
strip_byte b [] = if b == 0 then [] else b ∷ []
strip_byte b (c ∷ cs) = b ∷ c ∷ cs

strip : List ℕ → List ℕ
strip [] = []
strip (b ∷ bs) = strip_byte b (strip bs)

abbrev AreBytes : List ℕ → Type 0
AreBytes = All (λ b. b < 256)

-- Whether the last byte is a zero.
ends_zero : List ℕ → Bool
ends_zero [] = false
ends_zero (b ∷ []) = b == 0
ends_zero (_ ∷ b ∷ bs) = ends_zero (b ∷ bs)

le_value-strip_byte : (b : ℕ) (s : List ℕ) → le_value (strip_byte b s) ≡ b + 256 * le_value s
unfolding le_value strip_byte
le_value-strip_byte b [] = ground arith
le_value-strip_byte b (c ∷ cs) = refl

length-strip_byte-le : (b : ℕ) (s : List ℕ) → length (strip_byte b s) ≤ suc (length s)
unfolding strip_byte
length-strip_byte-le b [] = ground arith
length-strip_byte-le b (c ∷ cs) = omega arith

strip_byte-AreBytes : (b : ℕ) (s : List ℕ) → b < 256 → AreBytes s → AreBytes (strip_byte b s)
unfolding strip_byte
strip_byte-AreBytes b [] h k = ground arith
strip_byte-AreBytes b (c ∷ cs) h k = (h, k)

ends_zero-strip_byte :
    (b : ℕ) (s : List ℕ) → ends_zero s ≡ false → ends_zero (strip_byte b s) ≡ false
unfolding ends_zero strip_byte
ends_zero-strip_byte b [] h = ground arith
ends_zero-strip_byte b (c ∷ cs) h = h

strip_byte-cons : (b : ℕ) (xs : List ℕ) → xs ≢ [] → strip_byte b xs ≡ b ∷ xs
unfolding strip_byte
strip_byte-cons b [] ne = absurd (ne refl)
strip_byte-cons b (c ∷ cs) ne = refl

-- `rposition` finds the last byte that `strip` keeps, if there is one.
abbrev Found : List ℕ → ℕ → Type 0
Found bs i = (rposition_nonzero bs ≡ some i) × (take (suc i) bs ≡ strip bs) × (strip bs ≢ [])

rposition-strip :
    (bs : List ℕ) → ((rposition_nonzero bs ≡ none) × (strip bs ≡ [])) ⊎ ((i : ℕ) × Found bs i)
unfolding rposition_nonzero strip strip_byte
rposition-strip [] = inl (refl, refl)
rposition-strip (b ∷ bs) = elim (rposition-strip bs) [
  | inl (e, s) ↦ elim (Bool-cases (b == 0)) [
    | inl z ↦ inl (rw (e, z), rw (s, z))
    | inr nz ↦ inr (0, (rw (e, nz), rw (s, nz), rw (s, nz) (λ p. cc)))
  ]
  | inr (i, (e, t, ne)) ↦
      let kept = strip_byte-cons b (strip bs) ne in
      inr (suc i, (rw e, ap (λ xs. b ∷ xs) t ∙ sym kept, rw kept (λ p. cc)))
]

take-trimmed_size : (bs : List ℕ) → take (trimmed_size bs) bs ≡ strip bs
unfolding trimmed_size
take-trimmed_size bs = elim (rposition-strip bs) [
  | inl (e, s) ↦ rw (e, trimmed_size, s)
  | inr (i, (e, t, ne)) ↦ let size : i + 1 ≡ suc i = omega arith in rw (e, trimmed_size, size) t
]

le_value-strip : (bs : List ℕ) → le_value (strip bs) ≡ le_value bs
unfolding le_value strip
le_value-strip [] = refl
le_value-strip (b ∷ bs) =
    le_value-strip_byte b (strip bs) ∙ ap (λ v. b + 256 * v) (le_value-strip bs)

length-strip-le : (bs : List ℕ) → length (strip bs) ≤ length bs
unfolding strip
length-strip-le [] = omega arith
length-strip-le (b ∷ bs) = omega (arith, length-strip_byte-le b (strip bs), length-strip-le bs)

strip-AreBytes : (bs : List ℕ) → AreBytes bs → AreBytes (strip bs)
unfolding strip
strip-AreBytes [] h = tt
strip-AreBytes (b ∷ bs) h = strip_byte-AreBytes b (strip bs) h.0 (strip-AreBytes bs h.1)

ends_zero-strip : (bs : List ℕ) → ends_zero (strip bs) ≡ false
unfolding ends_zero strip
ends_zero-strip [] = refl
ends_zero-strip (b ∷ bs) = ends_zero-strip_byte b (strip bs) (ends_zero-strip bs)

length-to_le_bytes : (k v : ℕ) → length (to_le_bytes k v) ≡ k
unfolding to_le_bytes
length-to_le_bytes zero v = refl
length-to_le_bytes (suc k) v = ap suc (length-to_le_bytes k (v / 256))

to_le_bytes-AreBytes : (k v : ℕ) → AreBytes (to_le_bytes k v)
unfolding to_le_bytes
to_le_bytes-AreBytes zero v = tt
to_le_bytes-AreBytes (suc k) v = (omega arith, to_le_bytes-AreBytes k (v / 256))

le_value-to_le_bytes : (k v : ℕ) → v < 256 ^ k → le_value (to_le_bytes k v) ≡ v
unfolding le_value to_le_bytes
le_value-to_le_bytes zero v h = omega arith
le_value-to_le_bytes (suc k) v h =
    let below = rw pow-suc at h in omega (arith, le_value-to_le_bytes k (v / 256) (omega arith))

-- A set sign bit is the high bit of the value.
sign_bit_set-le_value : (s : List ℕ) → sign_bit_set s ≡ true → 256 ^ length s ≤ 2 * le_value s
unfolding sign_bit_set le_value
sign_bit_set-le_value [] h = cc
sign_bit_set-le_value (b ∷ []) h = ground arith
sign_bit_set-le_value (a ∷ b ∷ bs) h = rw pow-suc (omega (arith, sign_bit_set-le_value (b ∷ bs) h))

sign_bit_set-append : (s : List ℕ) → sign_bit_set (s ++ 0 ∷ []) ≡ false
unfolding sign_bit_set
sign_bit_set-append [] = refl
sign_bit_set-append (b ∷ []) = refl
sign_bit_set-append (a ∷ b ∷ bs) = sign_bit_set-append (b ∷ bs)

le_value-append : (s : List ℕ) → le_value (s ++ 0 ∷ []) ≡ le_value s
unfolding le_value
le_value-append [] = refl
le_value-append (b ∷ bs) = rw (le_value-append bs)

is_minimal_unsigned :
    (s : List ℕ) → AreBytes s → ends_zero s ≡ false → sign_bit_set s ≡ false → is_minimal s ≡ true
unfolding ends_zero sign_bit_set is_minimal
is_minimal_unsigned [] h z b = refl
is_minimal_unsigned (x ∷ []) h z b = ground arith
is_minimal_unsigned (x ∷ y ∷ []) h z b = ground arith
is_minimal_unsigned (x ∷ y ∷ w ∷ s) h z b = is_minimal_unsigned (y ∷ w ∷ s) h.1 z b

is_minimal_padded : (s : List ℕ) → sign_bit_set s ≡ true → is_minimal (s ++ 0 ∷ []) ≡ true
unfolding sign_bit_set is_minimal
is_minimal_padded [] b = cc
is_minimal_padded (x ∷ []) b = ground arith
is_minimal_padded (x ∷ y ∷ []) b = ground arith
is_minimal_padded (x ∷ y ∷ w ∷ s) b = is_minimal_padded (y ∷ w ∷ s) b

length-padded :
    (s : List ℕ) (n : ℕ)
    → le_value s ≡ n
    → n < 2 ^ 63
    → length s ≤ 8
    → sign_bit_set s ≡ true
    → length (s ++ 0 ∷ []) ≤ 8
length-padded s n v h l b = elim (Bool-cases (leb (length s) 7)) [
  | inl short ↦ omega (arith, leb→le _ _ short, length-append {0} s (0 ∷ []))
  | inr long ↦
      let full : length s ≡ 8 = omega (arith, leb-false _ _ long) in
      absurd (omega (arith, rw full at (sign_bit_set-le_value s b), v))
]

-- Reads back as `n`, has no shorter form, and is at most eight bytes long.
abbrev pub Encodes : List ℕ → ℕ → Type 0
Encodes item n = (decode_script_number item ≡ some n) × (is_minimal item ≡ true) × (length item ≤ 8)

Encodes-stripped :
    (s : List ℕ) (n : ℕ)
    → le_value s ≡ n
    → n < 2 ^ 63
    → length s ≤ 8
    → AreBytes s
    → ends_zero s ≡ false
    → Encodes (if sign_bit_set s then s ++ 0 ∷ [] else s) n
unfolding decode_script_number
Encodes-stripped s n v h l bytes last = elim (Bool-cases (sign_bit_set s)) [
  | inl set ↦ rw set (
    rw (sign_bit_set-append s, le_value-append s, v),
    is_minimal_padded s set,
    length-padded s n v h l set,
  )
  | inr clear ↦ rw clear (rw (clear, v), is_minimal_unsigned s bytes last clear, l)
]

-- The pushed bytes of a number below 2^63 are at most eight, hold no superfluous last byte, and read as
-- that number: little-endian, with the sign in the top bit.
pub script_number_lem : (n : ℕ) → n < 2 ^ 63 → Encodes (script_number n) n
unfolding script_number
script_number_lem n h =
    let bytes = to_le_bytes 8 n in
    rw (take-trimmed_size bytes) (
      Encodes-stripped (strip bytes) n
        (le_value-strip bytes ∙ le_value-to_le_bytes 8 n (omega arith)) h
        (omega (arith, length-strip-le bytes, length-to_le_bytes 8 n))
        (strip-AreBytes bytes (to_le_bytes-AreBytes 8 n)) (ends_zero-strip bytes))
