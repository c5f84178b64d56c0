-- ===== src/Util/Hex/Words.antt =====
-- util/hex.cpp, try_parse_hex_u32: the spellings of a 32-bit number.
use erikslund_solo_pool.Prelude.{
  ℕ, zero, suc, ◌+◌, ◌-◌, ◌*◌, ◌/◌, ◌%◌, ◌^◌, ◌≤◌, ◌<◌, ◌≡◌, refl, sym, ap, ap₂, ◌∙◌, ◌↔◌, ◌||◌, [],
  ◌∷◌, ◌++◌, map, Bytes, Option, none, some, length, replicate, bit_or, ltb, ◌==◌, arith,
  Bool-cases, inl, inr, some_inj,
}
use native.Mathlib.Nat.{pow-suc, div-div-eq-div-mul, div-eq_of_lt}
use erikslund_solo_pool.Prelude.Bits.{shift-bit_or}
use erikslund_solo_pool.Util.Hex.{hex_char, hex_table, u32_loop, try_parse_hex_u32}
use erikslund_solo_pool.Util.Hex.Laws.{to_lower, hex_table_digit, hex_table-hex_char}

-- The last `n` hexadecimal digits of a number, the highest first.
unfoldable pub hex_digits : ℕ → ℕ → Bytes
hex_digits zero v = []
hex_digits (suc n) v = hex_char (v / 16 ^ n % 16) ∷ hex_digits n v

-- `std::format("{:08x}", v)` for a 32-bit number.
pub format_08x : ℕ → Bytes
unfolding hex_digits
format_08x v = hex_digits 8 v

-- Eight characters: padded with zeros on the left, in lower case.
unfoldable pub canonical : Bytes → Bytes
canonical text = replicate (8 - length text) b'0' ++ map to_lower text

pow_bound : (m : ℕ) → m ≤ 7 → 16 ^ m * 16 ≤ 2 ^ 32
pow_bound zero h = omega arith
pow_bound (suc zero) h = omega arith
pow_bound (suc (suc zero)) h = omega arith
pow_bound (suc (suc (suc zero))) h = omega arith
pow_bound (suc (suc (suc (suc zero)))) h = omega arith
pow_bound (suc (suc (suc (suc (suc zero))))) h = omega arith
pow_bound (suc (suc (suc (suc (suc (suc zero)))))) h = omega arith
pow_bound (suc (suc (suc (suc (suc (suc (suc m))))))) h =
    let last : m ≡ 0 = omega arith in rw last (omega arith)

-- One digit more.
shifted : (v m n : ℕ) → v < 16 ^ m → m ≤ 7 → n < 16 → bit_or (v * 2 ^ 4 % 2 ^ 32) n ≡ v * 16 + n
shifted v m n h few d =
    let fits : v * 2 ^ 4 % 2 ^ 32 ≡ v * 2 ^ 4 = omega (arith, pow_bound m few) in
    rw fits (shift-bit_or 4 v n d)

-- The loop's digits, read behind a number `v` of `m` digits.
loop_digits :
    (k m v w : ℕ) (text : Bytes)
    → v < 16 ^ m
    → m + length text ≡ k
    → k ≤ 8
    → u32_loop v text ≡ some w
    → (w / 16 ^ length text ≡ v) × (hex_digits (length text) w ≡ map to_lower text) × (w < 16 ^ k)
unfolding u32_loop hex_digits
loop_digits k m v w [] h sum few e =
    let same : v ≡ w = some_inj e in
    let last : m ≡ k = omega arith in (omega (arith, same), refl, rw (← same, ← last) h)
loop_digits k m v w (c ∷ text) h sum few e =
    read (hex_table c) refl e (λ v' h'. loop_digits k (suc m) v' w text h' (omega arith) few)
  where
    read :
        (o : Option ℕ)
        → hex_table c ≡ o
        → elim o [ none ↦ none | some nibble ↦ u32_loop (bit_or (v * 2 ^ 4 % 2 ^ 32) nibble) text ]
          ≡ some w
        → ((v' : ℕ)
            → v' < 16 ^ suc m
            → u32_loop v' text ≡ some w
            → (w / 16 ^ length text ≡ v')
              × (hex_digits (length text) w ≡ map to_lower text)
              × (w < 16 ^ k))
        → (w / 16 ^ suc (length text) ≡ v)
          × (hex_digits (suc (length text)) w ≡ map to_lower (c ∷ text))
          × (w < 16 ^ k)
    read none ec r ih = absurd (ground arith)
    read (some n) ec r ih =
        let digit = hex_table_digit c n ec in
        let v' : ℕ = bit_or (v * 2 ^ 4 % 2 ^ 32) n in
        let sum' : v' ≡ v * 16 + n = shifted v m n h (omega arith) digit.0 in
        let (top, low, bound) = ih v' (omega (arith, sum', pow-suc 16 m, digit.0)) r in
        let next : w / 16 ^ length text % 16 ≡ n = omega (arith, top, sum', digit.0) in
        let above : w / 16 ^ suc (length text) ≡ v = omega (
          arith,
          ap (λ (t : ℕ). w / t) (pow-suc 16 (length text)),
          div-div-eq-div-mul w (16 ^ length text) 16,
          top,
          sum',
          digit.0,
        ) in
        (above, ap₂ ◌∷◌ (ap hex_char next ∙ digit.1) low, bound)

pow_mono : (n k j : ℕ) → n + k ≡ j → 16 ^ k ≤ 16 ^ j
pow_mono zero k j e = let same : k ≡ j = omega arith in rw same (omega arith)
pow_mono (suc n) k zero e = absurd (omega arith)
pow_mono (suc n) k (suc j) e = omega (arith, pow_mono n k j (omega arith), pow-suc 16 j)

-- Zeros in front of a number that needs fewer digits.
hex_digits_zeros :
    (n k j w : ℕ) → n + k ≡ j → w < 16 ^ k → hex_digits j w ≡ replicate n b'0' ++ hex_digits k w
unfolding hex_digits
hex_digits_zeros zero k j w e h = let same : k ≡ j = omega arith in rw same
hex_digits_zeros (suc n) k zero w e h = absurd (omega arith)
hex_digits_zeros (suc n) k (suc j) w e h =
    ap₂ ◌∷◌ (ap hex_char top ∙ (unfold hex_char in refl)) (hex_digits_zeros n k j w (omega arith) h)
  where
    top : w / 16 ^ j % 16 ≡ 0
    top =
        let none_left : w / 16 ^ j ≡ 0 =
          div-eq_of_lt (omega (arith, pow_mono n k j (omega arith))) in
        omega arith

-- The canonical spelling is the number printed with eight digits.
canonical-format_08x :
    (text : Bytes) (v : ℕ)
    → try_parse_hex_u32 text ≡ some v
    → (v < 2 ^ 32) × (canonical text ≡ format_08x v)
unfolding try_parse_hex_u32 canonical
canonical-format_08x text v e = elim (Bool-cases (length text == 0 || ltb 8 (length text))) [
  | inl refused ↦ absurd (ground arith)
  | inr allowed ↦
      let few : length text ≤ 8 = ground arith in
      let (_, digits, bound) =
        loop_digits (length text) 0 0 v text (omega arith) (omega arith) few (rw allowed at e) in
      (
        omega (arith, pow_mono (8 - length text) (length text) 8 (omega arith)),
        (unfold format_08x in
            rw (hex_digits_zeros (8 - length text) (length text) 8 v (omega arith) bound, digits)),
      )
]

loop-hex_digits : (n w : ℕ) → w < 2 ^ 32 → u32_loop (w / 16 ^ n) (hex_digits n w) ≡ some w
unfolding u32_loop hex_digits
loop-hex_digits zero w h = ap some (omega arith)
loop-hex_digits (suc n) w h =
    rw
      (
        hex_table-hex_char (w / 16 ^ n % 16) (omega arith),
        u32_loop,
        fits,
        shift-bit_or 4 (w / 16 ^ suc n) (w / 16 ^ n % 16) (omega arith),
        whole,
      )
      (loop-hex_digits n w h)
  where
    above : w / 16 ^ suc n ≡ w / 16 ^ n / 16
    above = omega (arith, ap (λ (t : ℕ). w / t) (pow-suc 16 n), div-div-eq-div-mul w (16 ^ n) 16)

    fits : w / 16 ^ suc n * 2 ^ 4 % 2 ^ 32 ≡ w / 16 ^ suc n * 2 ^ 4
    fits = omega (arith, above)

    whole : w / 16 ^ suc n * 2 ^ 4 + w / 16 ^ n % 16 ≡ w / 16 ^ n
    whole = omega (arith, above)

pub try_parse_hex_u32-format_08x : (v : ℕ) → v < 2 ^ 32 → try_parse_hex_u32 (format_08x v) ≡ some v
unfolding try_parse_hex_u32 format_08x
try_parse_hex_u32-format_08x v h =
    let nothing : v / 16 ^ 8 ≡ 0 = omega arith in rw nothing at (loop-hex_digits 8 v h)

-- Two spellings that parse have the same canonical form exactly when they are the same number.
pub canonical_iff :
    (s t : Bytes) (v w : ℕ)
    → try_parse_hex_u32 s ≡ some v
    → try_parse_hex_u32 t ≡ some w
    → (canonical s ≡ canonical t) ↔ (v ≡ w)
canonical_iff s t v w es et =
    let (hv, cv) = canonical-format_08x s v es in
    let (hw, cw) = canonical-format_08x t w et in
    (
      (λ same. some_inj (
          sym (try_parse_hex_u32-format_08x v hv)
          ∙ ap try_parse_hex_u32 (sym cv ∙ same ∙ cw)
          ∙ try_parse_hex_u32-format_08x w hw)),
      (λ same. cv ∙ ap format_08x same ∙ sym cw),
    )
