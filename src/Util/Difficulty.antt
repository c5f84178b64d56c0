-- ===== src/Util/Difficulty.antt =====
-- util/difficulty.cpp: targets from their compact form, and difficulties from targets, by integers of
-- five 64-bit words. The constants that are doubles are written by operations that are exact or round
-- as the compiler does.
pub mod Compact
pub mod Target
use Prim.Native.Nat.{compare, Ordering}
use erikslund_solo_pool.Prelude.{
  ℕ, zero, suc, ◌+◌, ◌-◌, ◌*◌, ◌/◌, ◌%◌, ◌^◌, bit_or, Bool, true, false, not, ◌&&◌, ◌||◌, List, [],
  ◌∷◌, ◌++◌, Bytes, length, get_or, set, drop, replicate, ltb, leb, ◌==◌, if◌then◌else◌,
}
use erikslund_solo_pool.Prelude.Int.{ℤ, pos, negsuc, sub_ℕ, ◌-ℤ◌}
use erikslund_solo_pool.Prelude.Double.{Double}
use erikslund_solo_pool.Util.Endian.{read_le64, write_le64}
use erikslund_solo_pool.Util.Uint256.{is_zero}

abbrev pub WideInteger : Type 0
WideInteger = List ℕ

abbrev wide_zero : WideInteger
wide_zero = replicate 5 0

-- The loop over the sources from `source` on, which stops at the first destination out of range.
shift_left_loop : List ℕ → ℕ → ℕ → ℕ → WideInteger → WideInteger
shift_left_loop [] source word_shift bit_shift shifted = shifted
shift_left_loop (word ∷ words) source word_shift bit_shift shifted =
    let destination = source + word_shift in
    let low : WideInteger =
      set shifted destination
        (bit_or (get_or shifted destination 0) (word * 2 ^ bit_shift % 2 ^ 64)) in
    let both : WideInteger =
      if not (bit_shift == 0) && ltb (destination + 1) (length shifted)
      then set low (destination + 1)
          (bit_or (get_or low (destination + 1) 0) (word / 2 ^ (64 - bit_shift)))
      else low in
    let rest = shift_left_loop words (source + 1) word_shift bit_shift both in
    if leb (length shifted) destination then shifted else rest

unfoldable pub shift_left : WideInteger → ℕ → WideInteger
unfolding shift_left_loop
shift_left value shift = shift_left_loop value 0 (shift / 64) (shift % 64) wide_zero

-- From the highest word down.
compare_words : ℕ → WideInteger → WideInteger → Ordering
compare_words zero left right = Ordering.eq
compare_words (suc index) left right =
    let rest = compare_words index left right in
    if get_or left index 0 == get_or right index 0
    then rest
    else compare (get_or left index 0) (get_or right index 0)

unfoldable pub compare_wide : WideInteger → WideInteger → Ordering
unfolding compare_words
compare_wide left right = compare_words 5 left right

-- `std::bit_width` of a 64-bit word.
bit_width_loop : ℕ → ℕ → ℕ
bit_width_loop zero n = 0
bit_width_loop (suc fuel) n =
    let rest = bit_width_loop fuel (n / 2) in if n == 0 then 0 else rest + 1

bit_length_loop : ℕ → WideInteger → ℕ
unfolding bit_width_loop
bit_length_loop zero value = 0
bit_length_loop (suc index) value =
    let rest = bit_length_loop index value in
    if not (get_or value index 0 == 0)
    then index * 64 + bit_width_loop 64 (get_or value index 0)
    else rest

unfoldable pub bit_length : WideInteger → ℕ
unfolding bit_length_loop
bit_length value = bit_length_loop 5 value

-- The words of the difference, from the lowest; `borrow` is 0 or 1.
unfoldable pub subtract : ℕ → WideInteger → WideInteger → WideInteger
subtract borrow [] right = []
subtract borrow (l ∷ left) [] = l ∷ left
subtract borrow (l ∷ left) (r ∷ right) =
    let subtrahend = (r + borrow) % 2 ^ 64 in
    let next_borrow = if ltb subtrahend r || ltb l subtrahend then 1 else 0 in
    (l + 2 ^ 64 - subtrahend) % 2 ^ 64 ∷ subtract next_borrow left right

-- Quotient bits from the highest down, with `bits` of them left.
divide_loop : ℕ → WideInteger → WideInteger → ℕ → ℕ × WideInteger
divide_loop zero divisor remainder quotient = (quotient, remainder)
divide_loop (suc bit) divisor remainder quotient =
    let shifted = shift_left divisor bit in
    let fits : Bool = elim (compare_wide remainder shifted) [ Ordering.lt ↦ false | _ ↦ true ] in
    divide_loop bit divisor (if fits then subtract 0 remainder shifted else remainder)
      (if fits then bit_or quotient (2 ^ bit % 2 ^ 64) else quotient)

unfoldable pub divide : WideInteger → WideInteger → ℕ × WideInteger
unfolding divide_loop
divide dividend divisor =
    divide_loop (bit_length dividend + 1 - bit_length divisor) divisor dividend 0

abbrev pub difficulty_one_numerator : WideInteger
difficulty_one_numerator = 0 ∷ 0 ∷ 0 ∷ 0xffff * 2 ^ 16 ∷ 0 ∷ []

unfoldable pub target_integer : Bytes → WideInteger
target_integer target =
    read_le64 target
    ∷ read_le64 (drop 8 target)
    ∷ read_le64 (drop 16 target)
    ∷ read_le64 (drop 24 target)
    ∷ 0
    ∷ []

-- The exponent at which the significand has 53 bits.
unfoldable pub initial_exponent : WideInteger → WideInteger → ℤ
initial_exponent numerator denominator =
    let exponent = sub_ℕ (bit_length numerator) (bit_length denominator) in
    let order : Ordering = elim exponent [
      | pos n ↦ compare_wide numerator (shift_left denominator n)
      | negsuc n ↦ compare_wide (shift_left numerator (n + 1)) denominator
    ] in
    elim order [ Ordering.lt ↦ exponent -ℤ pos 1 | _ ↦ exponent ]

-- Rounded to the nearest, ties to even; a significand of 54 bits is halved.
unfoldable pub rounded : ℕ → WideInteger → WideInteger → ℤ → ℕ × ℤ
rounded significand remainder divisor exponent =
    let up : Bool = elim (compare_wide (shift_left remainder 1) divisor) [
      | Ordering.gt ↦ true
      | Ordering.eq ↦ not (significand % 2 == 0)
      | Ordering.lt ↦ false
    ] in
    let significand' = if up then significand + 1 else significand in
    if significand' == 2 ^ 53
    then (significand' / 2, exponent -ℤ negsuc 0)
    else (significand', exponent)

unfoldable pub exact_ratio : WideInteger → WideInteger → ℕ × ℤ
exact_ratio numerator denominator =
    let exponent = initial_exponent numerator denominator in
    let shift = pos 52 -ℤ exponent in
    let dividend : WideInteger = elim shift [
      | pos n ↦ shift_left numerator n
      | negsuc n ↦ numerator
    ] in
    let divisor : WideInteger = elim shift [
      | pos n ↦ denominator
      | negsuc n ↦ shift_left denominator (n + 1)
    ] in
    let (significand, remainder) = divide dividend divisor in
    rounded significand remainder divisor exponent

module _ (F : Double) where
  unfoldable pub exact_ratio_to_double : WideInteger → WideInteger → F.Value
  exact_ratio_to_double numerator denominator =
      let (significand, exponent) = exact_ratio numerator denominator in
      F.ldexp significand (exponent -ℤ pos 52)

  unfoldable pub difficulty_from_target : Bytes → F.Value
  difficulty_from_target target =
      if is_zero target
      then F.infinity
      else exact_ratio_to_double difficulty_one_numerator (target_integer target)

  -- The four words from the highest down, each the integer part of what remains.
  unfoldable pub target_from_difficulty : F.Value → Bytes
  target_from_difficulty difficulty =
      if not (F.less (F.div (F.of_nat 24) (F.of_nat (10 ^ 11))) difficulty)
      then replicate 32 0xff
      else let remaining = F.div (F.ldexp 65535 (pos 208)) difficulty in
        let word_3 = F.to_nat (F.div remaining (F.ldexp 1 (pos 192))) in
        let below_3 = F.sub remaining (F.mul (F.of_nat word_3) (F.ldexp 1 (pos 192))) in
        let word_2 = F.to_nat (F.div below_3 (F.ldexp 1 (pos 128))) in
        let below_2 = F.sub below_3 (F.mul (F.of_nat word_2) (F.ldexp 1 (pos 128))) in
        let word_1 = F.to_nat (F.div below_2 (F.ldexp 1 (pos 64))) in
        let below_1 = F.sub below_2 (F.mul (F.of_nat word_1) (F.ldexp 1 (pos 64))) in
        let word_0 = F.to_nat below_1 in
        (write_le64 word_0 ++ write_le64 word_1) ++ (write_le64 word_2 ++ write_le64 word_3)

-- A write beyond the 32 bytes is skipped.
unfoldable pub target_from_compact : ℕ → Bytes
target_from_compact nbits =
    let exponent = nbits / 2 ^ 24 in
    let mantissa = nbits % 2 ^ 23 in
    if leb exponent 3
    then (let m = mantissa / 2 ^ (8 * (3 - exponent)) in
        m % 256 ∷ (m / 2 ^ 8) % 256 ∷ (m / 2 ^ 16) % 256 ∷ replicate 29 0)
    else let index = exponent - 3 in
      set (set (set (replicate 32 0) index (mantissa % 256)) (index + 1) ((mantissa / 2 ^ 8) % 256))
        (index + 2) ((mantissa / 2 ^ 16) % 256)

unfoldable pub difficulty_from_compact : (F : Double) → ℕ → F.Value
difficulty_from_compact F nbits = difficulty_from_target F (target_from_compact nbits)
