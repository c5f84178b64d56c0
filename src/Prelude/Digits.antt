-- ===== src/Prelude/Digits.antt =====
-- The recursion that the bitwise operations stand for: more fuel than the first number changes nothing.
use Prim.Native.Nat.{digits, ℕ, zero, suc, ◌+◌, ◌-◌, ◌*◌, ◌/◌, ◌%◌, ◌≤◌}
use mathlib.Core.Path.{◌≡◌, refl, ap, ◌∙◌}
use native.Mathlib.Omega.{arith}

module _ (z : ℕ → ℕ) (f : ℕ → ℕ → ℕ) where
  -- One unit more.
  digits-suc : (n a b : ℕ) → a ≤ n → digits z f (suc n) a b ≡ digits z f n a b
  digits-suc zero zero b fits = refl
  digits-suc zero (suc a) b fits = absurd (omega arith)
  digits-suc (suc n) zero b fits = refl
  digits-suc (suc n) (suc a) b fits =
      ap (λ (high : ℕ). high * 2 + f (suc a % 2) (b % 2))
        (digits-suc n (suc a / 2) (b / 2) (omega arith))

  pub digits-add : (d n m a b : ℕ) → a ≤ n → m ≡ d + n → digits z f m a b ≡ digits z f n a b
  digits-add zero n m a b fits sum = ap (λ (k : ℕ). digits z f k a b) (omega arith)
  digits-add (suc d) n zero a b fits sum = absurd (omega arith)
  digits-add (suc d) n (suc m) a b fits sum =
      digits-suc m a b (omega arith) ∙ digits-add d n m a b fits (omega arith)

  -- The lowest digit of a number that is not zero, and the rest.
  pub digits_lowest :
      (a b : ℕ)
      → digits z f (suc a) (suc a) b
        ≡ digits z f (suc a / 2) (suc a / 2) (b / 2) * 2 + f (suc a % 2) (b % 2)
  digits_lowest a b =
      let half = suc a / 2 in
      ap (λ (high : ℕ). high * 2 + f (suc a % 2) (b % 2))
        (digits-add (a - half) half a half (b / 2) (omega arith) (omega arith))
