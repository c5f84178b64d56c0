-- ===== src/Util/Base58/Value.antt =====
-- The loops over the digits keep the number that they write, and write it with no zero in front.
use native.Mathlib.Nat.{
  mod-add-div, mod-lt, div-lt_iff_lt-mul, mul-le-mul_right, pow-zero, pow-suc, add-mul-div_left,
  add-mul-mod_self_left, div-eq_of_lt, mod-eq_of_lt,
}
use erikslund_solo_pool.Prelude.{
  ℕ, zero, suc, ◌+◌, ◌*◌, ◌/◌, ◌%◌, ◌^◌, ◌≤◌, ◌<◌, ◌≡◌, refl, sym, ap, ap₂, ◌∙◌, List, [], ◌∷◌, All,
  Bool-cases, inl, inr, ◌==◌, arith,
}
use erikslund_solo_pool.Util.Base58.{carry_loop, push_carry, accumulate}

-- The number of some digits, the lowest first.
unfoldable pub number_of : ℕ → List ℕ → ℕ
number_of base [] = 0
number_of base (digit ∷ digits) = digit + base * number_of base digits

-- Digits of which the highest is not zero: every end of the list has a number that is not.
abbrev pub IsTrimmed : ℕ → List ℕ → Type 0
IsTrimmed base [] = Unit
IsTrimmed base (digit ∷ digits) = (0 < number_of base (digit ∷ digits)) × IsTrimmed base digits

module _ (base factor : ℕ) (many : 2 ≤ base) (positive : 0 < factor) where
  -- A carry is below the factor.
  carry_below :
      (digit carry : ℕ) → digit < base → carry < factor → (carry + digit * factor) / base < factor
  carry_below digit carry d c =
      let most : suc digit * factor ≤ base * factor = mul-le-mul_right factor d in
      (div-lt_iff_lt-mul (omega arith)).1 (omega (arith, most))

  push_carry_lem :
      (fuel carry : ℕ)
      → carry < base ^ fuel
      → (number_of base (push_carry base fuel carry) ≡ carry)
        × IsTrimmed base (push_carry base fuel carry)
        × All (λ digit. digit < base) (push_carry base fuel carry)
  unfolding push_carry number_of
  push_carry_lem zero carry small = (omega (arith, rw (pow-zero base) at small), tt, tt)
  push_carry_lem (suc fuel) carry small = elim (Bool-cases (carry == 0)) [
    | inl e ↦ rw (push_carry, e) (ground arith, tt, tt)
    | inr e ↦
        let (value, trimmed, digits) =
          push_carry_lem fuel (carry / base)
            ((div-lt_iff_lt-mul (omega arith)).1 (rw (pow-suc base fuel) at small)) in
        let whole : carry % base + base * number_of base (push_carry base fuel (carry / base))
            ≡ carry =
          ap (λ (k : ℕ). carry % base + base * k) value ∙ mod-add-div carry base in
        rw (push_carry, e)
          (whole, (ground (arith, whole), trimmed), (mod-lt carry (omega arith), digits))
  ]

  -- The digits after a step, with a value below the factor.
  pub accumulate_lem :
      (digits : List ℕ) (value : ℕ)
      → factor ≤ base ^ 32
      → value < factor
      → All (λ digit. digit < base) digits
      → IsTrimmed base digits
      → (number_of base (accumulate base factor digits value)
          ≡ number_of base digits * factor + value)
        × IsTrimmed base (accumulate base factor digits value)
        × All (λ digit. digit < base) (accumulate base factor digits value)
  unfolding accumulate carry_loop number_of
  accumulate_lem [] value room small digits_small trimmed =
      let (e, t, d) = push_carry_lem 32 value (omega (arith, small, room)) in
      (omega (arith, e), t, d)
  accumulate_lem (digit ∷ digits) value room small (first, others) (some_digit, trimmed) =
      let sum = value + digit * factor in
      let (e, t, d) =
        accumulate_lem digits (sum / base) room (carry_below digit value first small) others
          trimmed in
      let split_sum = mod-add-div sum base in
      let number : sum % base + base * number_of base (accumulate base factor digits (sum / base))
          ≡ (digit + base * number_of base digits) * factor + value =
        ap (λ (k : ℕ). sum % base + base * k) e ∙ omega (arith, split_sum) in
      let more : 1 * factor ≤ (digit + base * number_of base digits) * factor =
        mul-le-mul_right factor some_digit in
      (number, (omega (arith, number, more), t), (mod-lt sum (omega arith), d))

lowest : (base digit rest : ℕ) → digit < base → (digit + base * rest) % base ≡ digit
lowest base digit rest small = add-mul-mod_self_left digit base rest ∙ mod-eq_of_lt small

others : (base digit rest : ℕ) → digit < base → (digit + base * rest) / base ≡ rest
others base digit rest small =
    add-mul-div_left digit rest (omega arith) ∙ omega (arith, div-eq_of_lt small)

-- Two lists of digits with no zero in front that write one number are the same.
pub number_of_inj :
    (base : ℕ) (xs ys : List ℕ)
    → 2 ≤ base
    → All (λ digit. digit < base) xs
    → All (λ digit. digit < base) ys
    → IsTrimmed base xs
    → IsTrimmed base ys
    → number_of base xs ≡ number_of base ys
    → xs ≡ ys
unfolding number_of
number_of_inj base [] [] many xd yd xt yt e = refl
number_of_inj base [] (y ∷ ys) many xd yd xt yt e = absurd (omega (arith, yt.0, e))
number_of_inj base (x ∷ xs) [] many xd yd xt yt e = absurd (omega (arith, xt.0, e))
number_of_inj base (x ∷ xs) (y ∷ ys) many xd yd xt yt e =
    let low : x ≡ y =
      sym (lowest base x (number_of base xs) xd.0)
      ∙ ap (λ (k : ℕ). k % base) e
      ∙ lowest base y (number_of base ys) yd.0 in
    let high : number_of base xs ≡ number_of base ys =
      sym (others base x (number_of base xs) xd.0)
      ∙ ap (λ (k : ℕ). k / base) e
      ∙ others base y (number_of base ys) yd.0 in
    ap₂ (λ (d : ℕ) (ds : List ℕ). d ∷ ds) low
      (number_of_inj base xs ys many xd.1 yd.1 xt.1 yt.1 high)
