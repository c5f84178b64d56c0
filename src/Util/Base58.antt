-- ===== src/Util/Base58.antt =====
-- util/base58.cpp: numbers in base 58 and back, with a checksum. The two loops over the digits differ in
-- the base of the digits and in the factor, which are arguments here. A carry is an `int` of 32 bits,
-- so that 32 rounds write it.
pub mod Value
pub mod Laws
use erikslund_solo_pool.Prelude.{
  ℕ, zero, suc, ◌+◌, ◌-◌, ◌*◌, ◌/◌, ◌%◌, Bool, true, false, List, [], ◌∷◌, ◌++◌, map, reverse,
  Bytes, Option, none, some, length, get_or, take, drop, replicate, ltb, ◌==◌, if◌then◌else◌,
  same_bytes, codes, Throws, ok, throw,
}
use erikslund_solo_pool.Util.Merkle.{Hash256}

abbrev pub alphabet : Bytes
alphabet = codes "123456789ABCDEFGHJKLMNPQRSTUVWXYZabcdefghijkmnopqrstuvwxyz"

-- `kReverse`, with `none` for its -1: the place of a character from index `i` of the alphabet on.
unfoldable pub place_from : Bytes → ℕ → ℕ → Option ℕ
place_from [] i character = none
place_from (c ∷ letters) i character =
    let rest = place_from letters (i + 1) character in if c == character then some i else rest

unfoldable pub reverse_table : ℕ → Option ℕ
unfolding place_from
reverse_table character = place_from alphabet 0 character

-- The digits, the lowest first, times the factor and with the carry added; and the carry that is left.
unfoldable pub carry_loop : ℕ → ℕ → List ℕ → ℕ → List ℕ × ℕ
carry_loop base factor [] carry = ([], carry)
carry_loop base factor (digit ∷ digits) carry =
    let sum = carry + digit * factor in
    let (rest, left) = carry_loop base factor digits (sum / base) in (sum % base ∷ rest, left)

-- `while (carry)`.
unfoldable pub push_carry : ℕ → ℕ → ℕ → List ℕ
push_carry base zero carry = []
push_carry base (suc fuel) carry =
    let rest = push_carry base fuel (carry / base) in if carry == 0 then [] else carry % base ∷ rest

unfoldable pub accumulate : ℕ → ℕ → List ℕ → ℕ → List ℕ
accumulate base factor digits value =
    let (digits', carry) = carry_loop base factor digits value in
    digits' ++ push_carry base 32 carry

unfoldable pub decode_loop : Bytes → List ℕ → Option (List ℕ)
decode_loop [] digits = some digits
decode_loop (character ∷ input) digits = elim (reverse_table character) [
  | none ↦ none
  | some value ↦ decode_loop input (accumulate 256 58 digits value)
]

-- How many elements at the front are the one given.
unfoldable pub leading : ℕ → Bytes → ℕ
leading first [] = 0
leading first (x ∷ xs) = let rest = leading first xs in if x == first then suc rest else 0

unfoldable pub try_base58_decode : Bytes → Option Bytes
unfolding decode_loop
try_base58_decode input = elim (decode_loop input []) [
  | none ↦ none
  | some digits ↦ some (reverse (digits ++ replicate (leading b'1' input) 0))
]

-- What the decoders throw.
pub data Base58Error : Type 0 where
  invalid_character invalid_checksum : Base58Error

unfoldable pub base58_decode : Bytes → Throws Base58Error Bytes
base58_decode input = elim (try_base58_decode input) [
  | some decoded ↦ ok decoded
  | none ↦ throw invalid_character
]

unfoldable pub encode_loop : Bytes → List ℕ → List ℕ
encode_loop [] digits = digits
encode_loop (byte ∷ bytes) digits = encode_loop bytes (accumulate 58 256 digits byte)

-- `kAlphabet[digit]`.
unfoldable pub letter : ℕ → ℕ
letter digit = get_or alphabet digit 0

unfoldable pub base58_encode : Bytes → Bytes
unfolding encode_loop
base58_encode bytes =
    replicate (leading 0 bytes) b'1' ++ map letter (reverse (encode_loop bytes []))

module _ (sha256d : Bytes → Hash256) where
  unfoldable pub try_base58check_decode : Bytes → Option Bytes
  try_base58check_decode input = elim (try_base58_decode input) [
    | none ↦ none
    | some full ↦
        if ltb (length full) 4
        then none
        else let payload = take (length full - 4) full in
          if same_bytes (drop (length full - 4) full) (take 4 (sha256d payload))
          then some payload
          else none
  ]

  unfoldable pub base58check_decode : Bytes → Throws Base58Error Bytes
  base58check_decode input = elim (try_base58check_decode input) [
    | some payload ↦ ok payload
    | none ↦ throw invalid_checksum
  ]

  unfoldable pub base58check_encode : Bytes → Bytes
  base58check_encode payload = base58_encode (payload ++ take 4 (sha256d payload))
