-- ===== src/Kernel/Fees.antt =====
-- kernel/src/lib.rs: the minimum standard fee of `ToccataFeePolicy`.
use kaspa_script.Prelude.{
  ℕ, ◌*◌, ◌^◌, ◌<◌, ◌≤◌, ◌≡◌, ltb, leb, if◌then◌else◌, arith, zero, suc, ◌⊎◌, inl, inr, ap, ◌∙◌,
  sym, Bool-cases, ltb→lt,
}
use kaspa_script.Prelude.Fault.{Result, ok, err, ◌>>=◌, >>=-eq-ok, ok-injective, err-ne-ok}
use kaspa_script.Kernel.Model.{KernelError}

pub record ToccataFeePolicy : Type 0 where
  pub sompi_per_unit : ℕ

-- `ToccataFeePolicy::default`
abbrev pub default_policy : ToccataFeePolicy
default_policy = record { sompi_per_unit = 100 }

-- `checked_mul` of two `u64`, with `ok_or(ArithmeticOverflow)`
unfoldable pub checked_mul : ℕ → ℕ → Result KernelError ℕ
checked_mul a b = if ltb (a * b) (2 ^ 64) then ok (a * b) else err KernelError.arithmetic_overflow

unfoldable pub max : ℕ → ℕ → ℕ
max a b = if leb a b then b else a

-- `ToccataFeePolicy::minimum_standard_fee`
unfoldable pub minimum_standard_fee : ToccataFeePolicy → ℕ → ℕ → Result KernelError ℕ
unfolding checked_mul max
minimum_standard_fee policy compute_grams transaction_bytes = do
  normalized_bytes ← checked_mul transaction_bytes 2
  checked_mul (max compute_grams normalized_bytes) policy.sompi_per_unit

mul_mono : (a b p : ℕ) → a ≤ b → a * p ≤ b * p
mul_mono a b zero h = omega arith
mul_mono a b (suc p) h = omega (arith, mul_mono a b p h)

checked_mul_ok : (a b n : ℕ) → checked_mul a b ≡ ok n → (n ≡ a * b) × (n < 2 ^ 64)
unfolding checked_mul
checked_mul_ok a b n h = elim (Bool-cases (ltb (a * b) (2 ^ 64))) [
  | inl fits ↦ (
    sym (ok-injective (rw fits at h)),
    rw (sym (ok-injective (rw fits at h))) (ltb→lt (a * b) (2 ^ 64) fits),
  )
  | inr large ↦ absurd (err-ne-ok (rw large at h))
]

max-left : (a b : ℕ) → a ≤ max a b
unfolding max
max-left a b = ground arith

max-right : (a b : ℕ) → b ≤ max a b
unfolding max
max-right a b = ground arith

max-Either : (a b : ℕ) → (max a b ≡ a) ⊎ (max a b ≡ b)
unfolding max
max-Either a b = ground arith

-- A fee is below 2^64, pays for the compute and for twice the bytes at the policy's price, and is no
-- more than one of the two.
pub minimum_standard_fee-covers :
    (policy : ToccataFeePolicy) (grams bytes fee : ℕ)
    → minimum_standard_fee policy grams bytes ≡ ok fee
    → (fee < 2 ^ 64)
      × (grams * policy.sompi_per_unit ≤ fee)
      × (bytes * 2 * policy.sompi_per_unit ≤ fee)
      × ((fee ≡ grams * policy.sompi_per_unit) ⊎ (fee ≡ bytes * 2 * policy.sompi_per_unit))
unfolding minimum_standard_fee
minimum_standard_fee-covers policy grams bytes fee h =
    let (n, first, second) = >>=-eq-ok (checked_mul bytes 2) _ h in
    let (n_is, n_below) = checked_mul_ok bytes 2 n first in
    let (fee_is, fee_below) = checked_mul_ok (max grams n) policy.sompi_per_unit fee second in
    let price = policy.sompi_per_unit in
    (
      fee_below,
      rw fee_is (mul_mono grams (max grams n) price (max-left grams n)),
      rw (fee_is, sym n_is) (mul_mono n (max grams n) price (max-right grams n)),
      elim (max-Either grams n) [
        | inl e ↦ inl (fee_is ∙ ap (λ x. x * price) e)
        | inr e ↦ inr (fee_is ∙ ap (λ x. x * price) (e ∙ n_is))
      ],
    )
