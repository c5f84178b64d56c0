-- ===== src/Util/Hex.antt =====
-- util/hex.hpp and util/hex.cpp. A text is the list of its character codes.
pub mod Laws
pub mod Words
use erikslund_solo_pool.Prelude.{
  ℕ, zero, suc, ◌+◌, ◌-◌, ◌*◌, ◌/◌, ◌%◌, ◌^◌, Bool, true, false, not, ◌&&◌, ◌||◌, [], ◌∷◌, ◌++◌,
  Bytes, Option, none, some, length, get_or, reverse, bit_or, ltb, leb, ◌==◌, if◌then◌else◌, Throws,
  ok, throw, List,
}

pub data HexError : Type 0 where
  odd_length non_hex_character bad_hex_u32 : HexError

-- `kHexChars`: "0123456789abcdef".
abbrev hex_chars : Bytes
hex_chars =
    b'0' ∷ b'1' ∷ b'2' ∷ b'3' ∷ b'4' ∷ b'5' ∷ b'6' ∷ b'7' ∷ b'8' ∷ b'9' ∷ b'a' ∷ b'b' ∷ b'c' ∷ b'd'
    ∷ b'e' ∷ b'f' ∷ []

unfoldable pub hex_char : ℕ → ℕ
hex_char nibble = get_or hex_chars nibble 0

-- `kHexTable`, with `none` for its -1.
unfoldable pub hex_table : ℕ → Option ℕ
hex_table c =
    if leb b'0' c && leb c b'9'
    then some (c - b'0')
    else if leb b'a' c && leb c b'f'
    then some (10 + (c - b'a'))
    else if leb b'A' c && leb c b'F'
    then some (10 + (c - b'A'))
    else none

unfoldable pub to_hex : Bytes → Bytes
to_hex [] = []
to_hex (byte ∷ rest) = hex_char (byte / 2 ^ 4) ∷ hex_char (byte % 2 ^ 4) ∷ to_hex rest

-- `for (index = data.size(); index-- > 0;)`: the bytes from the last to the first.
to_hex_reversed_loop : ℕ → Bytes → Bytes
to_hex_reversed_loop zero input = []
to_hex_reversed_loop (suc index) input =
    let byte = get_or input index 0 in
    hex_char (byte / 2 ^ 4) ∷ hex_char (byte % 2 ^ 4) ∷ to_hex_reversed_loop index input

unfoldable pub to_hex_reversed : Bytes → Bytes
unfolding to_hex_reversed_loop
to_hex_reversed input = to_hex_reversed_loop (length input) input

is_some : {A : Type 0} → Option A → Bool
is_some none = false
is_some (some a) = true

all_hex : Bytes → Bool
unfolding is_some
all_hex [] = true
all_hex (c ∷ text) = is_some (hex_table c) && all_hex text

unfoldable pub is_hex : Bytes → Bool
unfolding all_hex
is_hex text = if length text == 0 || not (length text % 2 == 0) then false else all_hex text

-- One byte, if both digits are: `(high_nibble << 4) | low_nibble`.
unfoldable pub hex_byte : ℕ → ℕ → Option ℕ
hex_byte h l = elim (hex_table h) [
  | none ↦ none
  | some high ↦ elim (hex_table l) [ none ↦ none | some low ↦ some (bit_or (high * 2 ^ 4) low) ]
]

-- The loop of `from_hex_append`: the bytes decoded so far, and whether it came to the end.
append_loop : Bytes → Bytes → Bytes × Bool
append_loop out [] = (out, true)
append_loop out (c ∷ []) = (out, true)
append_loop out (h ∷ (l ∷ rest)) = elim (hex_byte h l) [
  | none ↦ (out, false)
  | some b ↦ append_loop (out ++ (b ∷ [])) rest
]

-- The new `out`, which an exception leaves with the bytes decoded before it.
unfoldable pub from_hex_append : Bytes → Bytes → Bytes × Throws HexError (Unit {0})
unfolding append_loop
from_hex_append out text =
    if not (length text % 2 == 0)
    then (out, throw odd_length)
    else let (out', done) = append_loop out text in
      (out', if done then ok tt else throw non_hex_character)

returned : Bytes × Throws HexError (Unit {0}) → Throws HexError Bytes
returned (out, ok _) = ok out
returned (out, throw e) = throw e

unfoldable pub from_hex : Bytes → Throws HexError Bytes
unfolding from_hex_append returned
from_hex text = returned (from_hex_append [] text)

try_loop : Bytes → Bytes → Option Bytes
try_loop out [] = some out
try_loop out (c ∷ []) = some out
try_loop out (h ∷ (l ∷ rest)) = elim (hex_byte h l) [
  | none ↦ none
  | some b ↦ try_loop (out ++ (b ∷ [])) rest
]

unfoldable pub try_from_hex : Bytes → Option Bytes
unfolding try_loop
try_from_hex text = if not (length text % 2 == 0) then none else try_loop [] text

-- `value = (value << 4) | nibble` on 32 bits.
u32_loop : ℕ → Bytes → Option ℕ
u32_loop value [] = some value
u32_loop value (c ∷ text) = elim (hex_table c) [
  | none ↦ none
  | some nibble ↦ u32_loop (bit_or (value * 2 ^ 4 % 2 ^ 32) nibble) text
]

unfoldable pub try_parse_hex_u32 : Bytes → Option ℕ
unfolding u32_loop
try_parse_hex_u32 text = if length text == 0 || ltb 8 (length text) then none else u32_loop 0 text

unfoldable pub parse_hex_u32 : Bytes → Throws HexError ℕ
unfolding try_parse_hex_u32
parse_hex_u32 text = elim (try_parse_hex_u32 text) [
  | some value ↦ ok value
  | none ↦ throw bad_hex_u32
]

-- The loop over the `n` bytes of `out` left to write; `false` on a character that is no digit.
into_loop : Bytes → Bytes → Bytes × Bool
into_loop [] text = ([], true)
into_loop (o ∷ out) [] = (o ∷ out, true)
into_loop (o ∷ out) (c ∷ []) = (o ∷ out, true)
into_loop (o ∷ out) (h ∷ (l ∷ rest)) = elim (hex_byte h l) [
  | none ↦ (o ∷ out, false)
  | some b ↦ let (out', done) = into_loop out rest in (b ∷ out', done)
]

unfoldable pub from_hex_into : Bytes → Bytes → Bytes × Bool
unfolding into_loop
from_hex_into out text =
    if not (length text == length out * 2) then (out, false) else into_loop out text
