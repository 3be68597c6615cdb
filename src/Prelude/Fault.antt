-- ===== src/Prelude/Fault.antt =====
-- `Result<A, E>` and the `?` operator, for any error type.
use mathlib.Core.Path.{◌≡◌, refl}
use mathlib.Core.Logic.{◌⊎◌, inl, inr}

pub data Result {ℓ} (E A : Type ℓ) : Type ℓ where
  ok : A → Result E A
  err : E → Result E A

module _ {ℓ} {E A B : Type ℓ} where
  infixl 5 ◌>>=◌
  abbrev pub ◌>>=◌ : Result E A → (A → Result E B) → Result E B
  ok a >>= f = f a
  err e >>= f = err e

  -- A value that the first part gives, from which the second gives `b`.
  abbrev pub Through : Result E A → (A → Result E B) → B → Type ℓ
  Through m f b = (a : A) × (m ≡ ok a) × (f a ≡ ok b)

  pub >>=-eq-ok : (m : Result E A) (f : A → Result E B) {b : B} → (m >>= f) ≡ ok b → Through m f b
  >>=-eq-ok (err e) f h = cc
  >>=-eq-ok (ok a) f h = (a, refl, h)

  -- An error is the first part's, or the second's on the value that the first part gives.
  pub >>=-eq-err :
      (m : Result E A) (f : A → Result E B) {e : E}
      → (m >>= f) ≡ err e
      → (m ≡ err e) ⊎ ((a : A) × (m ≡ ok a) × (f a ≡ err e))
  >>=-eq-err (err e) f h = inl (cc)
  >>=-eq-err (ok a) f h = inr (a, refl, h)

module _ {ℓ} {E A : Type ℓ} where
  pub Result-cases : (m : Result E A) → ((a : A) × (m ≡ ok a)) ⊎ ((e : E) × (m ≡ err e))
  Result-cases (ok a) = inl (a, refl)
  Result-cases (err e) = inr (e, refl)

  pub ok-injective : {a b : A} → ◌≡◌ {A = Result E A} (ok a) (ok b) → a ≡ b
  ok-injective h = cc

  pub err-injective : {e e' : E} → ◌≡◌ {A = Result E A} (err e) (err e') → e ≡ e'
  err-injective h = cc

  pub err-ne-ok : {e : E} {a : A} → ◌≡◌ {A = Result E A} (err e) (ok a) → ⊥
  err-ne-ok h = cc
