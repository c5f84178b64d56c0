-- ===== src/Prelude/Masks.antt =====
-- `&` and `|` one binary digit at a time, and numbers put together under a mask.
use Prim.Native.Nat.{
  min, max, digits, bit_and, bit_or, bit_and-bitwise, ℕ, zero, suc, ◌+◌, ◌*◌, ◌/◌, ◌%◌, ◌^◌,
}
use mathlib.Core.Path.{◌≡◌, refl, sym, ap, ◌∙◌}
use native.Mathlib.Nat.{pow-suc}
use native.Mathlib.Omega.{arith}
use erikslund_solo_pool.Prelude.Digits.{digits_lowest}
use erikslund_solo_pool.Prelude.Bits.{or_lowest}

-- The lowest bit, and the rest.
pub and_lowest : (a b : ℕ) → bit_and a b ≡ bit_and (a / 2) (b / 2) * 2 + min (a % 2) (b % 2)
and_lowest zero b = omega (arith, bit_and-bitwise 0 b, bit_and-bitwise 0 (b / 2))
and_lowest (suc a) b =
    bit_and-bitwise (suc a) b
    ∙ digits_lowest (λ y. 0) min a b
    ∙ ap (λ (high : ℕ). high * 2 + min (suc a % 2) (b % 2))
        (sym (bit_and-bitwise (suc a / 2) (b / 2)))

-- `(v & ~mask) | (r & mask)`, with `other` for `~mask`.
unfoldable pub merged : ℕ → ℕ → ℕ → ℕ → ℕ
merged v r mask other = bit_or (bit_and v other) (bit_and r mask)

and_half :
    (a b : ℕ)
    → (bit_and a b / 2 ≡ bit_and (a / 2) (b / 2)) × (bit_and a b % 2 ≡ min (a % 2) (b % 2))
and_half a b = (ground (arith, and_lowest a b), ground (arith, and_lowest a b))

or_half :
    (a b : ℕ) → (bit_or a b / 2 ≡ bit_or (a / 2) (b / 2)) × (bit_or a b % 2 ≡ max (a % 2) (b % 2))
or_half a b = (ground (arith, or_lowest a b), ground (arith, or_lowest a b))

merged_half :
    (v r mask other : ℕ)
    → (merged v r mask other / 2 ≡ merged (v / 2) (r / 2) (mask / 2) (other / 2))
      × (merged v r mask other % 2 ≡ max (min (v % 2) (other % 2)) (min (r % 2) (mask % 2)))
unfolding merged
merged_half v r mask other =
    let (or_rest, or_digit) = or_half (bit_and v other) (bit_and r mask) in
    let (v_rest, v_digit) = and_half v other in
    let (r_rest, r_digit) = and_half r mask in
    (rw (or_rest, v_rest, r_rest) refl, rw (or_digit, v_digit, r_digit) refl)

no_digits : (n a : ℕ) → digits (λ y. 0) min n a 0 ≡ 0
no_digits zero a = refl
no_digits (suc n) zero = refl
no_digits (suc n) (suc a) = omega (arith, no_digits n (suc a / 2))

and_zero : (a : ℕ) → bit_and a 0 ≡ 0
and_zero a = bit_and-bitwise a 0 ∙ no_digits a a

-- Outside the mask, it is the first number.
pub merged-outside :
    (k v r mask other : ℕ)
    → mask + other + 1 ≡ 2 ^ k
    → bit_and (merged v r mask other) other ≡ bit_and v other
merged-outside zero v r mask other h =
    let none : other ≡ 0 = omega arith in rw none (and_zero (merged v r mask 0) ∙ sym (and_zero v))
merged-outside (suc k) v r mask other h =
    let (rest, digit) = merged_half v r mask other in
    let ih = merged-outside k (v / 2) (r / 2) (mask / 2) (other / 2) (omega (arith, pow-suc 2 k)) in
    let odd : mask % 2 + other % 2 ≡ 1 = omega (arith, pow-suc 2 k) in
    ground (
      arith,
      and_lowest (merged v r mask other) other,
      and_lowest v other,
      ap (λ (t : ℕ). bit_and t (other / 2)) rest,
    )

-- Inside the mask, it is the second.
pub merged-inside :
    (k v r mask other : ℕ)
    → mask + other + 1 ≡ 2 ^ k
    → bit_and (merged v r mask other) mask ≡ bit_and r mask
merged-inside zero v r mask other h =
    let none : mask ≡ 0 = omega arith in rw none (and_zero (merged v r 0 other) ∙ sym (and_zero r))
merged-inside (suc k) v r mask other h =
    let (rest, digit) = merged_half v r mask other in
    let ih = merged-inside k (v / 2) (r / 2) (mask / 2) (other / 2) (omega (arith, pow-suc 2 k)) in
    let odd : mask % 2 + other % 2 ≡ 1 = omega (arith, pow-suc 2 k) in
    ground (
      arith,
      and_lowest (merged v r mask other) mask,
      and_lowest r mask,
      ap (λ (t : ℕ). bit_and t (mask / 2)) rest,
    )
