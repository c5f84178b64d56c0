-- ===== src/Prelude/Bits.antt =====
-- `|` of fields that share no bit is their sum, at every width; and `|` commutes with a shift.
use Prim.Native.Nat.{max, bit_or, bit_or-bitwise, ℕ, zero, suc, ◌+◌, ◌*◌, ◌/◌, ◌%◌, ◌^◌, ◌≤◌, ◌<◌}
use mathlib.Core.Path.{◌≡◌, refl, sym, ap, ◌∙◌}
use native.Mathlib.Nat.{pow-suc}
use native.Mathlib.Omega.{arith}
use erikslund_solo_pool.Prelude.Digits.{digits_lowest}

-- The lowest bit, and the rest.
pub or_lowest : (a b : ℕ) → bit_or a b ≡ bit_or (a / 2) (b / 2) * 2 + max (a % 2) (b % 2)
or_lowest zero b = omega (arith, bit_or-bitwise 0 b, bit_or-bitwise 0 (b / 2))
or_lowest (suc a) b =
    bit_or-bitwise (suc a) b
    ∙ digits_lowest (λ y. y) max a b
    ∙ ap (λ (high : ℕ). high * 2 + max (suc a % 2) (b % 2))
        (sym (bit_or-bitwise (suc a / 2) (b / 2)))

zero-bit_or : (b : ℕ) → bit_or 0 b ≡ b
zero-bit_or b = bit_or-bitwise 0 b

double_shift : (q k : ℕ) → q * 2 ^ suc k ≡ 2 * (q * 2 ^ k)
double_shift q k = omega (arith, ap (λ (t : ℕ). q * t) (pow-suc 2 k))

-- `low | (high << k)` where `low` fits in `k` bits.
pub bit_or-shift : (k low high : ℕ) → low < 2 ^ k → bit_or low (high * 2 ^ k) ≡ low + high * 2 ^ k
bit_or-shift zero low high h = ground (arith, zero-bit_or high)
bit_or-shift (suc k) low high h = ground (
  arith,
  or_lowest low (high * 2 ^ suc k),
  double_shift high k,
  bit_or-shift k (low / 2) high (omega arith),
)

-- `(high << k) | low` where `low` fits in `k` bits.
bit_or-zero_below : (n a : ℕ) → a ≤ n → bit_or a 0 ≡ a
bit_or-zero_below n zero h = refl
bit_or-zero_below zero (suc a) h = absurd (omega arith)
bit_or-zero_below (suc n) (suc a) h =
    omega (arith, or_lowest (suc a) 0, bit_or-zero_below n (suc a / 2) (omega arith))

pub shift-bit_or : (k high low : ℕ) → low < 2 ^ k → bit_or (high * 2 ^ k) low ≡ high * 2 ^ k + low
shift-bit_or zero high low h = ground (arith, bit_or-zero_below high high)
shift-bit_or (suc k) high low h = ground (
  arith,
  or_lowest (high * 2 ^ suc k) low,
  double_shift high k,
  shift-bit_or k high (low / 2) (omega arith),
)
