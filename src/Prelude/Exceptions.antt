-- ===== src/Prelude/Exceptions.antt =====
-- Code that throws: a value or an exception, with the exception's type as a parameter.
use mathlib.Core.Path.{◌≡◌, refl}
use mathlib.Core.Logic.{◌⊎◌, inl, inr}

pub data Throws {ℓ} (E : Type 0) (A : Type ℓ) : Type ℓ where
  ok : A → Throws E A
  throw : E → Throws E A

module _ {ℓ} {E : Type 0} {A : Type ℓ} where
  abbrev pub bind {κ} : {B : Type κ} → Throws E A → (A → Throws E B) → Throws E B
  bind (ok a) f = f a
  bind (throw e) f = throw e

  pub bind-eq-ok {κ} :
      {B : Type κ} (m : Throws E A) (f : A → Throws E B) {b : B}
      → bind m f ≡ ok b
      → (a : A) × (m ≡ ok a) × (f a ≡ ok b)
  bind-eq-ok (ok a) f h = (a, refl, h)
  bind-eq-ok (throw e) f h = cc

  pub Throws-cases : (m : Throws E A) → ((a : A) × (m ≡ ok a)) ⊎ ((e : E) × (m ≡ throw e))
  Throws-cases (ok a) = inl (a, refl)
  Throws-cases (throw e) = inr (e, refl)

  pub ok_inj : {a b : A} → ◌≡◌ {A = Throws E A} (ok a) (ok b) → a ≡ b
  ok_inj h = cc
