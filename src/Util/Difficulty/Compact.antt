-- ===== src/Util/Difficulty/Compact.antt =====
-- util/difficulty.cpp: the number that a compact target stands for.
use erikslund_solo_pool.Prelude.{
  ℕ, zero, suc, ◌+◌, ◌-◌, ◌*◌, ◌/◌, ◌%◌, ◌^◌, ◌≤◌, ◌<◌, ◌≡◌, refl, sym, ap, ◌∙◌, true, false, [],
  ◌∷◌, Bytes, get_or, set, length, replicate, leb, ◌==◌, ==_iff, Bool-cases, inl, inr, arith,
}
use native.Mathlib.Nat.{pow-suc, div-le_self}
use erikslund_solo_pool.Util.Difficulty.{target_from_compact}
use erikslund_solo_pool.Util.Uint256.Order.{low_value, uint256_value}

get_or-set : (xs : Bytes) (i v : ℕ) → i < length xs → get_or (set xs i v) i 0 ≡ v
get_or-set [] i v h = absurd (omega arith)
get_or-set (x ∷ xs) zero v h = refl
get_or-set (x ∷ xs) (suc i) v h = get_or-set xs i v (omega arith)

get_or-set_other :
    (xs : Bytes) (i j v : ℕ)
    → (i < j)
    → (get_or (set xs j v) i 0 ≡ get_or xs i 0) × (get_or (set xs i v) j 0 ≡ get_or xs j 0)
get_or-set_other [] i j v h = (refl, refl)
get_or-set_other (x ∷ xs) i zero v h = absurd (omega arith)
get_or-set_other (x ∷ xs) zero (suc j) v h = (refl, refl)
get_or-set_other (x ∷ xs) (suc i) (suc j) v h = get_or-set_other xs i j v (omega arith)

length-set : (xs : Bytes) (i v : ℕ) → length (set xs i v) ≡ length xs
length-set [] i v = refl
length-set (x ∷ xs) zero v = refl
length-set (x ∷ xs) (suc i) v = ground (arith, length-set xs i v)

-- A byte that is written changes the number by its digit.
low_value-set_above :
    (n : ℕ) (xs : Bytes) (i v : ℕ) → n ≤ i → low_value n (set xs i v) ≡ low_value n xs
unfolding low_value
low_value-set_above zero xs i v h = refl
low_value-set_above (suc n) xs i v h =
    let (same, _) = get_or-set_other xs n i v (omega arith) in
    rw (low_value-set_above n xs i v (omega arith), same) refl

low_value-set :
    (n : ℕ) (xs : Bytes) (i v : ℕ)
    → i < n
    → i < length xs
    → get_or xs i 0 ≡ 0
    → low_value n (set xs i v) ≡ low_value n xs + v * 256 ^ i
unfolding low_value
low_value-set zero xs i v h k e = absurd (omega arith)
low_value-set (suc n) xs i v h k e = elim (Bool-cases (n == i)) [
  | inl at ↦
      let same : n ≡ i = (==_iff n i).0 at in
      rw (same, low_value-set_above i xs i v (omega arith), get_or-set xs i v k, e) (omega arith)
  | inr before ↦
      let under : i < n = ground arith in
      let (_, other) = get_or-set_other xs i n v under in
      rw (low_value-set n xs i v under k e, other) (omega arith)
]

get_or-replicate : (n i : ℕ) → get_or {A = ℕ} (replicate n 0) i 0 ≡ 0
get_or-replicate zero i = refl
get_or-replicate (suc n) zero = refl
get_or-replicate (suc n) (suc i) = get_or-replicate n i

low_value_zero : (n m : ℕ) → low_value n (replicate m 0) ≡ 0
unfolding low_value
low_value_zero zero m = refl
low_value_zero (suc n) m = rw (low_value_zero n m, get_or-replicate m n) (omega arith)

-- Three bytes at the start.
first_three :
    (m : ℕ)
    → m < 2 ^ 24
    → uint256_value (m % 256 ∷ (m / 2 ^ 8) % 256 ∷ (m / 2 ^ 16) % 256 ∷ replicate 29 0) ≡ m
unfolding uint256_value low_value
first_three m h = omega arith

scaled :
    (a b c m p : ℕ) → a + b * 256 + c * 65536 ≡ m → a * p + b * (p * 256) + c * (p * 65536) ≡ m * p
scaled a b c m p e = rw (sym e) (grind arith)

-- Three bytes from one place on, with all of them inside.
three_set :
    (n : ℕ) (xs : Bytes) (i a b c : ℕ)
    → i + 2 < n
    → i + 2 < length xs
    → get_or xs i 0 ≡ 0
    → get_or xs (i + 1) 0 ≡ 0
    → get_or xs (i + 2) 0 ≡ 0
    → low_value n (set (set (set xs i a) (i + 1) b) (i + 2) c)
      ≡ low_value n xs + a * 256 ^ i + b * 256 ^ (i + 1) + c * 256 ^ (i + 2)
three_set n xs i a b c fits inside none none' none'' =
    let ys = set xs i a in
    let zs = set ys (i + 1) b in
    let (_, y1) = get_or-set_other xs i (i + 1) a (omega arith) in
    let (_, y2) = get_or-set_other xs i (i + 2) a (omega arith) in
    let (_, z2) = get_or-set_other ys (i + 1) (i + 2) b (omega arith) in
    omega (
      arith,
      low_value-set n xs i a (omega arith) (omega arith) none,
      low_value-set n ys (i + 1) b (omega arith) (omega (arith, length-set xs i a)) (y1 ∙ none'),
      low_value-set n zs (i + 2) c (omega arith)
          (omega (arith, length-set xs i a, length-set ys (i + 1) b)) (z2 ∙ y2 ∙ none''),
    )

one_more : (n : ℕ) → 256 ^ (n + 1) ≡ 256 ^ n * 256
one_more n = let next : n + 1 ≡ suc n = omega arith in ap (λ (k : ℕ). 256 ^ k) next ∙ pow-suc 256 n

as_low_value : (xs : Bytes) → uint256_value xs ≡ low_value 32 xs
unfolding uint256_value low_value
as_low_value xs = refl

at_place :
    (i m : ℕ)
    → m < 2 ^ 24
    → i ≤ 29
    → uint256_value (
        set
          (set (set (replicate 32 0) i (m % 256)) (i + 1) ((m / 2 ^ 8) % 256))
          (i + 2)
          ((m / 2 ^ 16) % 256))
      ≡ m * 256 ^ i
at_place i m h fits =
    let p = 256 ^ i in
    let a = m % 256 in
    let b = m / 2 ^ 8 % 256 in
    let c = m / 2 ^ 16 % 256 in
    let power = one_more i in
    let next : i + 2 ≡ i + 1 + 1 = omega arith in
    let power' : 256 ^ (i + 2) ≡ p * 65536 =
      ap (λ (n : ℕ). 256 ^ n) next ∙ one_more (i + 1) ∙ omega (arith, power) in
    let parts =
      three_set 32 (replicate 32 0) i a b c (omega arith) (omega arith) (get_or-replicate 32 i)
        (get_or-replicate 32 (i + 1)) (get_or-replicate 32 (i + 2)) in
    let total : a + b * 256 + c * 65536 ≡ m = omega arith in
    as_low_value (set (set (set (replicate 32 0) i a) (i + 1) b) (i + 2) c)
    ∙ parts
    ∙ rw (low_value_zero 32 32, power, power') (omega (arith, scaled a b c m p total))

-- A compact target with an exponent up to 3 is its mantissa, of 23 bits, shifted right by the bytes that
-- are missing to 3.
pub target_from_compact_small :
    (nbits : ℕ)
    → nbits / 2 ^ 24 ≤ 3
    → uint256_value (target_from_compact nbits) ≡ nbits % 2 ^ 23 / 2 ^ (8 * (3 - nbits / 2 ^ 24))
unfolding target_from_compact
target_from_compact_small nbits small =
    let m = nbits % 2 ^ 23 / 2 ^ (8 * (3 - nbits / 2 ^ 24)) in
    let test : leb (nbits / 2 ^ 24) 3 ≡ true = ground arith in
    rw test
      (first_three m (omega (arith, div-le_self (nbits % 2 ^ 23) (2 ^ (8 * (3 - nbits / 2 ^ 24))))))

-- A compact target with an exponent from 4 to 32 is its mantissa, of 23 bits, times 256 to the exponent
-- less 3; no byte is lost.
pub target_from_compact_large :
    (nbits : ℕ)
    → 3 < nbits / 2 ^ 24
    → nbits / 2 ^ 24 ≤ 32
    → uint256_value (target_from_compact nbits) ≡ nbits % 2 ^ 23 * 256 ^ (nbits / 2 ^ 24 - 3)
unfolding target_from_compact
target_from_compact_large nbits large fits =
    let test : leb (nbits / 2 ^ 24) 3 ≡ false = ground arith in
    rw test (at_place (nbits / 2 ^ 24 - 3) (nbits % 2 ^ 23) (omega arith) (omega arith))
