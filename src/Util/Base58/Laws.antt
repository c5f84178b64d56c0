-- ===== src/Util/Base58/Laws.antt =====
-- Decoding what was encoded gives the bytes back.
use mathlib.Core.List.{reverse-cons, reverse-append, reverse-reverse}
use erikslund_solo_pool.Prelude.{
  ℕ, zero, suc, ◌+◌, ◌*◌, ◌<◌, ◌≡◌, ◌⊎◌, refl, sym, ap, ap₂, ◌∙◌, inl, inr, Bool, true, false, ◌&&◌,
  ◌||◌, not, Option-cases, List, [], ◌∷◌, ◌++◌, map, reverse, Bytes, IsBytes, none, some, replicate,
  All, All-append, All-replicate, All-take, length, length-append, length-take, take, take-append,
  drop-append, same_bytes_refl, ◌-◌, ltb, passes, passes_lem, ◌==◌, Bool-cases, arith,
}
use erikslund_solo_pool.Util.Merkle.{Hash256}
use erikslund_solo_pool.Util.Base58.{
  try_base58check_decode, base58check_encode, reverse_table, place_from, letter, accumulate,
  leading, decode_loop, encode_loop, try_base58_decode, base58_encode,
}
use erikslund_solo_pool.Util.Base58.Value.{number_of, IsTrimmed, accumulate_lem, number_of_inj}

-- The number of digits with the highest first, with one before them.
horner : ℕ → ℕ → List ℕ → ℕ
horner base number [] = number
horner base number (digit ∷ digits) = horner base (number * base + digit) digits

-- The letter of a digit is at the digit's place, and that of no digit but 0 is '1'.
letter_test : ℕ → Bool
letter_test digit = elim (reverse_table (letter digit)) [
  | none ↦ false
  | some place ↦ place == digit && (digit == 0 || not (letter digit == b'1'))
]

letter_tests : passes letter_test 58 ≡ true
unfolding passes letter_test reverse_table place_from letter
letter_tests = refl

none_place : (digit : ℕ) → reverse_table (letter digit) ≡ none → letter_test digit ≡ true → ⊥
unfolding letter_test
none_place digit e test = ground (arith, rw (letter_test, e) at test)

some_place :
    (digit place : ℕ)
    → reverse_table (letter digit) ≡ some place
    → letter_test digit ≡ true
    → (place ≡ digit) × (0 < digit → (letter digit == b'1') ≡ false)
unfolding letter_test
some_place digit place e test =
    let run = rw (letter_test, e) at test in (ground (arith, run), λ positive. ground (arith, run))

reverse_table-letter : (digit : ℕ) → digit < 58 → reverse_table (letter digit) ≡ some digit
reverse_table-letter digit small =
    let test = passes_lem letter_test 58 digit small letter_tests in
    elim (Option-cases (reverse_table (letter digit))) [
      | inl e ↦ absurd (none_place digit e test)
      | inr (place, e) ↦ e ∙ ap some (some_place digit place e test).0
    ]

letter_not_one : (digit : ℕ) → digit < 58 → 0 < digit → (letter digit == b'1') ≡ false
letter_not_one digit small some_digit =
    let test = passes_lem letter_test 58 digit small letter_tests in
    elim (Option-cases (reverse_table (letter digit))) [
      | inl e ↦ absurd (none_place digit e test)
      | inr (place, e) ↦ (some_place digit place e test).1 some_digit
    ]

-- The text of digits is read back as the steps of the loop.
feed : List ℕ → List ℕ → List ℕ
feed [] digits = digits
feed (value ∷ values) digits = feed values (accumulate 256 58 digits value)

decode_loop-letter :
    (values digits : List ℕ)
    → All (λ value. value < 58) values
    → decode_loop (map letter values) digits ≡ some (feed values digits)
unfolding decode_loop feed
decode_loop-letter [] digits small = refl
decode_loop-letter (value ∷ values) digits small =
    rw (decode_loop, reverse_table-letter value small.0)
      (decode_loop-letter values (accumulate 256 58 digits value) small.1)

feed_lem :
    (values digits : List ℕ)
    → All (λ value. value < 58) values
    → IsBytes digits
    → IsTrimmed 256 digits
    → (number_of 256 (feed values digits) ≡ horner 58 (number_of 256 digits) values)
      × IsTrimmed 256 (feed values digits)
      × IsBytes (feed values digits)
unfolding feed horner
feed_lem [] digits small bytes trimmed = (refl, trimmed, bytes)
feed_lem (value ∷ values) digits small bytes trimmed =
    let (e, t, b) =
      accumulate_lem 256 58 (omega arith) (omega arith) digits value (omega arith) small.0 bytes
        trimmed in
    let (e', t', b') = feed_lem values (accumulate 256 58 digits value) small.1 b t in
    (e' ∙ ap (λ (k : ℕ). horner 58 k values) e, t', b')

encode_loop_lem :
    (bytes digits : List ℕ)
    → IsBytes bytes
    → All (λ digit. digit < 58) digits
    → IsTrimmed 58 digits
    → (number_of 58 (encode_loop bytes digits) ≡ horner 256 (number_of 58 digits) bytes)
      × IsTrimmed 58 (encode_loop bytes digits)
      × All (λ digit. digit < 58) (encode_loop bytes digits)
unfolding encode_loop horner
encode_loop_lem [] digits small bounded trimmed = (refl, trimmed, bounded)
encode_loop_lem (byte ∷ bytes) digits small bounded trimmed =
    let (e, t, b) =
      accumulate_lem 58 256 (omega arith) (omega arith) digits byte (omega arith) small.0 bounded
        trimmed in
    let (e', t', b') = encode_loop_lem bytes (accumulate 58 256 digits byte) small.1 b t in
    (e' ∙ ap (λ (k : ℕ). horner 256 k bytes) e, t', b')

horner-append :
    (base number : ℕ) (xs : List ℕ) (y : ℕ)
    → horner base number (xs ++ (y ∷ [])) ≡ horner base number xs * base + y
unfolding horner
horner-append base number [] y = refl
horner-append base number (x ∷ xs) y = horner-append base (number * base + x) xs y

horner-reverse :
    (base : ℕ) (digits : List ℕ) → horner base 0 (reverse digits) ≡ number_of base digits
unfolding horner number_of
horner-reverse base [] = refl
horner-reverse base (digit ∷ digits) = rw (reverse-cons digit digits) (
    horner-append base 0 (reverse digits) digit
    ∙ ap (λ (k : ℕ). k * base + digit) (horner-reverse base digits)
    ∙ omega arith)

-- Zeros in front count for nothing.
horner_zeros : (base n : ℕ) (xs : List ℕ) → horner base 0 (replicate n 0 ++ xs) ≡ horner base 0 xs
unfolding horner
horner_zeros base zero xs = refl
horner_zeros base (suc n) xs =
    ap (λ (k : ℕ). horner base k (replicate n 0 ++ xs)) (omega arith) ∙ horner_zeros base n xs

module _ (P : ℕ → Type 0) where
  All-reverse : (xs : List ℕ) → All P xs → All P (reverse xs)
  All-reverse [] h = tt
  All-reverse (x ∷ xs) (h, hs) =
      rw (reverse-cons x xs) (All-append P (reverse xs) (x ∷ []) (All-reverse xs hs) (h, tt))

  All-second : (xs ys : List ℕ) → All P (xs ++ ys) → All P ys
  All-second [] ys h = h
  All-second (x ∷ xs) ys h = All-second xs ys h.1

-- What is behind the elements at the front that are the one given.
split_front :
    (first : ℕ) (xs : List ℕ)
    → (rest : List ℕ) × (xs ≡ replicate (leading first xs) first ++ rest)
      × ((rest ≡ []) ⊎ ((y : ℕ) × (ys : List ℕ) × (rest ≡ y ∷ ys) × ((y == first) ≡ false)))
unfolding leading
split_front first [] = ([], refl, inl refl)
split_front first (x ∷ xs) = elim (Bool-cases (x == first)) [
  | inl e ↦
      let (rest, same, shape) = split_front first xs in
      rw (leading, e) (rest, ap₂ (λ (a : ℕ) (l : List ℕ). a ∷ l) (ground arith) same, shape)
  | inr e ↦ rw (leading, e) (x ∷ xs, refl, inr (x, xs, refl, e))
]

leading-replicate :
    (first n : ℕ) (xs : List ℕ) → leading first xs ≡ 0 → leading first (replicate n first ++ xs) ≡ n
unfolding leading
leading-replicate first zero xs e = e
leading-replicate first (suc n) xs e =
    let same : (first == first) ≡ true = ground arith in
    rw (leading, same) (ap (λ (k : ℕ). suc k) (leading-replicate first n xs e))

-- The highest digit.
trimmed_last :
    (base : ℕ) (digits : List ℕ)
    → IsTrimmed base digits
    → (digits ≡ []) ⊎ ((front : List ℕ) × (top : ℕ) × (digits ≡ front ++ (top ∷ [])) × (0 < top))
unfolding number_of
trimmed_last base [] trimmed = inl refl
trimmed_last base (digit ∷ []) trimmed = inr ([], digit, refl, omega (arith, trimmed.0))
trimmed_last base (digit ∷ (next ∷ digits)) trimmed =
    elim (trimmed_last base (next ∷ digits) trimmed.1) [
      | inl e ↦ cc
      | inr (front, top, e, positive) ↦
          inr (digit ∷ front, top, ap (λ (l : List ℕ). digit ∷ l) e, positive)
    ]

IsTrimmed-snoc :
    (xs : List ℕ) (y : ℕ)
    → 0 < y
    → IsTrimmed 256 (xs ++ (y ∷ [])) × (0 < number_of 256 (xs ++ (y ∷ [])))
unfolding number_of
IsTrimmed-snoc [] y positive = ((omega arith, tt), omega arith)
IsTrimmed-snoc (x ∷ xs) y positive =
    let (trimmed, more) = IsTrimmed-snoc xs y positive in
    ((omega (arith, more), trimmed), omega (arith, more))

IsTrimmed-rest :
    (rest : List ℕ)
    → (rest ≡ []) ⊎ ((y : ℕ) × (ys : List ℕ) × (rest ≡ y ∷ ys) × ((y == 0) ≡ false))
    → IsTrimmed 256 (reverse rest)
IsTrimmed-rest rest (inl e) = rw e tt
IsTrimmed-rest rest (inr (y, ys, e, some_byte)) =
    rw (e, reverse-cons y ys) ((IsTrimmed-snoc (reverse ys) y (ground arith)).0)

map_zeros :
    (n : ℕ) (xs : List ℕ) → replicate n b'1' ++ map letter xs ≡ map letter (replicate n 0 ++ xs)
unfolding letter
map_zeros zero xs = refl
map_zeros (suc n) xs = ap (λ (l : List ℕ). b'1' ∷ l) (map_zeros n xs)

leading-map :
    (digits : List ℕ)
    → All (λ digit. digit < 58) digits
    → IsTrimmed 58 digits
    → leading b'1' (map letter (reverse digits)) ≡ 0
unfolding leading
leading-map digits small trimmed = elim (trimmed_last 58 digits trimmed) [
  | inl e ↦ rw e refl
  | inr (front, top, e, positive) ↦
      let bound : All (λ digit. digit < 58) (top ∷ []) =
        All-second (λ digit. digit < 58) front (top ∷ []) (rw e at small) in
      rw (e, reverse-append front (top ∷ []), leading, letter_not_one top bound.0 positive) refl
]

abbrev no_bytes : ℕ → Bytes
no_bytes n = replicate n 0

zeros_snoc : (n : ℕ) → no_bytes n ++ (0 ∷ []) ≡ no_bytes (suc n)
zeros_snoc zero = refl
zeros_snoc (suc n) = ap (λ (l : List ℕ). 0 ∷ l) (zeros_snoc n)

reverse_zeros : (n : ℕ) → reverse (no_bytes n) ≡ no_bytes n
reverse_zeros zero = refl
reverse_zeros (suc n) =
    reverse-cons 0 (no_bytes n) ∙ ap (λ (l : Bytes). l ++ (0 ∷ [])) (reverse_zeros n) ∙ zeros_snoc n

-- Encoding bytes in base 58 and decoding the text gives the bytes back, with the zeros at their front.
pub try_base58_decode-base58_encode :
    (bytes : Bytes) → IsBytes bytes → try_base58_decode (base58_encode bytes) ≡ some bytes
unfolding try_base58_decode base58_encode number_of
try_base58_decode-base58_encode bytes is_bytes =
    let zeros = leading 0 bytes in
    let digits = encode_loop bytes [] in
    let (number, trimmed, small) = encode_loop_lem bytes [] is_bytes tt tt in
    let (rest, whole, shape) = split_front 0 bytes in
    let values = replicate zeros 0 ++ reverse digits in
    let values_small =
      All-append (λ value. value < 58) (replicate zeros 0) (reverse digits)
        (All-replicate (λ value. value < 58) zeros 0 (omega arith))
        (All-reverse (λ digit. digit < 58) digits small) in
    let (fed, fed_trimmed, fed_bytes) = feed_lem values [] values_small tt tt in
    let same_number : number_of 256 (feed values []) ≡ number_of 256 (reverse rest) =
      fed
      ∙ horner_zeros 58 zeros (reverse digits)
      ∙ horner-reverse 58 digits
      ∙ number
      ∙ ap (λ (l : List ℕ). horner 256 0 l) whole
      ∙ horner_zeros 256 zeros rest
      ∙ ap (λ (l : List ℕ). horner 256 0 l) (sym (reverse-reverse rest))
      ∙ horner-reverse 256 (reverse rest) in
    let rest_bytes : IsBytes rest =
      All-second (λ b. b < 256) (replicate zeros 0) rest (rw whole at is_bytes) in
    let same : feed values [] ≡ reverse rest =
      number_of_inj 256 (feed values []) (reverse rest) (omega arith) fed_bytes
        (All-reverse (λ b. b < 256) rest rest_bytes) fed_trimmed (IsTrimmed-rest rest shape)
        same_number in
    let read : decode_loop (replicate zeros b'1' ++ map letter (reverse digits)) []
        ≡ some (reverse rest) =
      ap (λ (t : Bytes). decode_loop t []) (map_zeros zeros (reverse digits))
      ∙ decode_loop-letter values [] values_small
      ∙ ap (λ (l : List ℕ). some l) same in
    let ones : leading b'1' (replicate zeros b'1' ++ map letter (reverse digits)) ≡ zeros =
      leading-replicate b'1' zeros (map letter (reverse digits))
        (leading-map digits small trimmed) in
    let output : reverse (reverse rest ++ replicate zeros 0) ≡ bytes =
      reverse-append (reverse rest) (replicate zeros 0)
      ∙ ap₂ (λ (a b : List ℕ). a ++ b) (reverse_zeros zeros) (reverse-reverse rest)
      ∙ sym whole in
    rw (try_base58_decode, base58_encode, read, ones, output) refl

module _ (sha256d : Bytes → Hash256) where
  -- With a hash of 32 bytes: an address in base 58 that was made of a payload is taken, and gives the
  -- payload back.
  pub try_base58check_decode-base58check_encode :
      (payload : Bytes)
      → IsBytes payload
      → IsBytes (sha256d payload)
      → length (sha256d payload) ≡ 32
      → try_base58check_decode sha256d (base58check_encode sha256d payload) ≡ some payload
  unfolding try_base58check_decode base58check_encode
  try_base58check_decode-base58check_encode payload is_bytes hash_bytes size =
      let sum = take 4 (sha256d payload) in
      let full = payload ++ sum in
      let read : try_base58_decode (base58_encode full) ≡ some full =
        try_base58_decode-base58_encode full (
          All-append (λ b. b < 256) payload sum is_bytes
            (All-take (λ b. b < 256) 4 (sha256d payload) hash_bytes)) in
      let sum_size : length sum ≡ 4 = omega (arith, length-take 4 (sha256d payload), size) in
      let full_size : length full ≡ length payload + 4 =
        omega (arith, length-append payload sum, sum_size) in
      let cut : length full - 4 ≡ length payload = omega (arith, full_size) in
      let enough : ltb (length full) 4 ≡ false = ground (arith, full_size) in
      rw
        (
          try_base58check_decode,
          read,
          enough,
          cut,
          take-append payload sum,
          drop-append payload sum,
          same_bytes_refl sum,
        )
        refl
