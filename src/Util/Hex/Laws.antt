-- ===== src/Util/Hex/Laws.antt =====
-- util/hex.cpp: bytes are read back from their text, and the decoders agree with one another.
use erikslund_solo_pool.Prelude.{
  ℕ, ◌+◌, ◌*◌, ◌/◌, ◌%◌, ◌^◌, ◌<◌, ◌≡◌, refl, sym, ap, ◌∙◌, Bool, true, false, ◌&&◌, [], ◌∷◌, ◌++◌,
  map, Bytes, IsByte, IsBytes, Option, none, some, length, bit_or, ltb, leb, ◌==◌, if◌then◌else◌,
  ok, throw, arith, passes, passes_lem, append_assoc, append-nil, ==_iff, Bool-cases, inl, inr,
  some_inj,
}
use erikslund_solo_pool.Prelude.Bits.{shift-bit_or}
use erikslund_solo_pool.Util.Hex.{
  odd_length, non_hex_character, hex_char, hex_table, to_hex, hex_byte, try_loop, try_from_hex,
  append_loop, from_hex,
}

-- `std::tolower` of the C locale.
abbrev pub to_lower : ℕ → ℕ
to_lower c = if leb b'A' c && leb c b'Z' then c + 32 else c

char_test : ℕ → Bool
char_test n = elim (hex_table (hex_char n)) [ none ↦ false | some m ↦ m == n ]

char_tests : passes char_test 16 ≡ true
unfolding passes char_test hex_table hex_char
char_tests = refl

pub hex_table-hex_char : (n : ℕ) → n < 16 → hex_table (hex_char n) ≡ some n
unfolding char_test
hex_table-hex_char n h = ground (arith, passes_lem char_test 16 n h char_tests)

-- What a digit stands for: a nibble whose character is the digit in lower case.
digit_test : ℕ → Bool
digit_test c = elim (hex_table c) [ none ↦ true | some n ↦ ltb n 16 && hex_char n == to_lower c ]

digit_tests : passes digit_test 103 ≡ true
unfolding passes digit_test hex_table hex_char
digit_tests = refl

hex_table_small : (c n : ℕ) → hex_table c ≡ some n → c < 103
unfolding hex_table
hex_table_small c n e = ground arith

pub hex_table_digit : (c n : ℕ) → hex_table c ≡ some n → (n < 16) × (hex_char n ≡ to_lower c)
unfolding digit_test
hex_table_digit c n e =
    ground (arith, passes_lem digit_test 103 c (hex_table_small c n e) digit_tests)

hex_byte-hex_char :
    (b : ℕ) → IsByte b → hex_byte (hex_char (b / 2 ^ 4)) (hex_char (b % 2 ^ 4)) ≡ some b
unfolding hex_byte
hex_byte-hex_char b h = ground (
  arith,
  hex_table-hex_char (b / 2 ^ 4) (omega arith),
  hex_table-hex_char (b % 2 ^ 4) (omega arith),
  shift-bit_or 4 (b / 2 ^ 4) (b % 2 ^ 4),
)

-- A byte that was read has the two digits, in lower case, for its text.
hex_byte_digits :
    (h l b : ℕ)
    → hex_byte h l ≡ some b
    → IsByte b × (hex_char (b / 2 ^ 4) ≡ to_lower h) × (hex_char (b % 2 ^ 4) ≡ to_lower l)
unfolding hex_byte
hex_byte_digits h l b e = read (hex_table h) (hex_table l) refl refl e
  where
    read :
        (high low : Option ℕ)
        → hex_table h ≡ high
        → hex_table l ≡ low
        → elim high [
          | none ↦ none
          | some m ↦ elim low [ none ↦ none | some n ↦ some (bit_or (m * 2 ^ 4) n) ]
        ]
          ≡ some b
        → IsByte b × (hex_char (b / 2 ^ 4) ≡ to_lower h) × (hex_char (b % 2 ^ 4) ≡ to_lower l)
    read none low eh el r = ground arith
    read (some m) none eh el r = ground arith
    read (some m) (some n) eh el r =
        let dh = hex_table_digit h m eh in
        let dl = hex_table_digit l n el in
        let sum : b ≡ m * 2 ^ 4 + n =
          omega (arith, some_inj r, shift-bit_or 4 m n (omega (arith, dl.0))) in
        let top : b / 2 ^ 4 ≡ m = omega (arith, dl.0) in
        let bottom : b % 2 ^ 4 ≡ n = omega (arith, dl.0) in
        (omega (arith, dh.0, dl.0), rw top dh.1, rw bottom dl.1)

pub length-to_hex : (bs : Bytes) → length (to_hex bs) ≡ 2 * length bs
unfolding to_hex
length-to_hex [] = refl
length-to_hex (b ∷ bs) = omega (arith, length-to_hex bs)

try_loop-to_hex : (out bs : Bytes) → IsBytes bs → try_loop out (to_hex bs) ≡ some (out ++ bs)
unfolding try_loop to_hex
try_loop-to_hex out [] h = rw (append-nil out)
try_loop-to_hex out (b ∷ bs) h =
    rw (hex_byte-hex_char b h.0, try_loop)
      (try_loop-to_hex (out ++ (b ∷ [])) bs h.1 ∙ ap some (append_assoc out (b ∷ []) bs))

-- Bytes are read back from their text.
pub try_from_hex-to_hex : (bs : Bytes) → IsBytes bs → try_from_hex (to_hex bs) ≡ some bs
unfolding try_from_hex
try_from_hex-to_hex bs h =
    let e : (length (to_hex bs) % 2 == 0) ≡ true =
      (==_iff _ 0).1 (omega (arith, length-to_hex bs)) in
    rw e (try_loop-to_hex [] bs h)

-- What the loop appends, from a text of even length.
try_loop_digits :
    (out text bs : Bytes)
    → length text % 2 ≡ 0
    → try_loop out text ≡ some bs
    → (tail : Bytes) × (bs ≡ out ++ tail) × IsBytes tail × (to_hex tail ≡ map to_lower text)
unfolding try_loop to_hex
try_loop_digits out [] bs h e = ([], some_inj (sym e) ∙ sym (append-nil out), tt, refl)
try_loop_digits out (c ∷ []) bs h e = absurd (omega arith)
try_loop_digits out (h ∷ (l ∷ rest)) bs even e =
    read (hex_byte h l) refl e (λ b. try_loop_digits (out ++ (b ∷ [])) rest bs (omega arith))
  where
    read :
        (o : Option ℕ)
        → hex_byte h l ≡ o
        → elim o [ none ↦ none | some b ↦ try_loop (out ++ (b ∷ [])) rest ] ≡ some bs
        → ((b : ℕ)
            → try_loop (out ++ (b ∷ [])) rest ≡ some bs
            → (tail : Bytes) × (bs ≡ (out ++ (b ∷ [])) ++ tail)
              × IsBytes tail
              × (to_hex tail ≡ map to_lower rest))
        → (tail : Bytes) × (bs ≡ out ++ tail)
          × IsBytes tail
          × (to_hex tail ≡ map to_lower (h ∷ (l ∷ rest)))
    read none eh r ih = absurd (ground arith)
    read (some b) eh r ih =
        let (tail, whole, bytes, digits) = ih b r in
        let d = hex_byte_digits h l b eh in
        (b ∷ tail, whole ∙ append_assoc out (b ∷ []) tail, (d.0, bytes), rw (d.1, d.2, digits))

-- What a text is read as has that text in lower case as its text.
pub to_hex-try_from_hex :
    (text bs : Bytes) → try_from_hex text ≡ some bs → IsBytes bs × (to_hex bs ≡ map to_lower text)
unfolding try_from_hex
to_hex-try_from_hex text bs e = elim (Bool-cases (length text % 2 == 0)) [
  | inl even ↦
      let (tail, whole, bytes, digits) =
        try_loop_digits [] text bs ((==_iff _ 0).0 even) (rw even at e) in
      (rw whole bytes, rw whole digits)
  | inr odd ↦ absurd (ground arith)
]

try_loop-append_loop :
    (out text : Bytes)
    → try_loop out text ≡ (if (append_loop out text).1 then some (append_loop out text).0 else none)
unfolding try_loop append_loop
try_loop-append_loop out [] = refl
try_loop-append_loop out (c ∷ []) = refl
try_loop-append_loop out (h ∷ (l ∷ rest)) =
    read (hex_byte h l) (λ b. try_loop-append_loop (out ++ (b ∷ [])) rest)
  where
    read :
        (o : Option ℕ)
        → ((b : ℕ)
            → try_loop (out ++ (b ∷ [])) rest ≡ (
                if (append_loop (out ++ (b ∷ [])) rest).1
                then some (append_loop (out ++ (b ∷ [])) rest).0
                else none))
        → let after : Bytes × Bool = elim o [
          | none ↦ (out, false)
          | some b ↦ append_loop (out ++ (b ∷ [])) rest
        ] in
          elim o [ none ↦ none | some b ↦ try_loop (out ++ (b ∷ [])) rest ]
          ≡ (if after.1 then some after.0 else none)
    read none ih = refl
    read (some b) ih = ih b

-- The throwing decoder agrees with the other one, and says which of the two faults it met.
from_hex-try_from_hex :
    (text : Bytes)
    → from_hex text ≡ elim (try_from_hex text) [
      | some bs ↦ ok bs
      | none ↦ throw (if length text % 2 == 0 then non_hex_character else odd_length)
    ]
unfolding from_hex try_from_hex
from_hex-try_from_hex text = ground (arith, try_loop-append_loop [] text)
