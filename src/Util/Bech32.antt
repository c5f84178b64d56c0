-- ===== src/Util/Bech32.antt =====
-- util/bech32.hpp and bech32.cpp: the addresses of witness programs (BIP173 and BIP350).
use erikslund_solo_pool.Prelude.{
  ℕ, zero, suc, ◌+◌, ◌-◌, ◌*◌, ◌/◌, ◌%◌, ◌^◌, Bool, true, false, not, ◌&&◌, ◌||◌, List, [], ◌∷◌,
  ◌++◌, map, Bytes, Option, none, some, length, get_or, take, drop, replicate, ltb, leb, ◌==◌,
  if◌then◌else◌, same_bytes, codes, bit_or, bit_xor, Throws, ok, throw,
}
use erikslund_solo_pool.Util.Hex.Laws.{to_lower}

abbrev pub charset : Bytes
charset = codes "qpzry9x8gf2tvdw0s3jn54khce6mua7l"

pub data Encoding : Type 0 where
  invalid bech32 bech32m : Encoding

abbrev pub bech32_const : ℕ
bech32_const = 1

abbrev pub bech32m_const : ℕ
bech32m_const = 0x2bc830a3

abbrev generator : List ℕ
generator = 0x3b6a57b2 ∷ 0x26508e6d ∷ 0x1ea119fa ∷ 0x3d4233dd ∷ 0x2a1462b3 ∷ []

-- The generators of the bits of `top`, the lowest first.
generator_loop : List ℕ → ℕ → ℕ → ℕ
generator_loop [] top checksum = checksum
generator_loop (g ∷ generators) top checksum =
    generator_loop generators (top / 2) (if top % 2 == 0 then checksum else bit_xor checksum g)

polymod_loop : Bytes → ℕ → ℕ
unfolding generator_loop
polymod_loop [] checksum = checksum
polymod_loop (value ∷ values) checksum =
    polymod_loop values (
      generator_loop generator (checksum / 2 ^ 25 % 256)
        (bit_xor (checksum % 2 ^ 25 * 2 ^ 5) value))

unfoldable pub polymod : Bytes → ℕ
unfolding polymod_loop
polymod values = polymod_loop values 1

unfoldable pub hrp_expand : Bytes → Bytes
hrp_expand hrp = map (λ c. c / 2 ^ 5) hrp ++ (0 ∷ map (λ c. c % 2 ^ 5) hrp)

unfoldable pub checksum_constant : Encoding → ℕ
checksum_constant bech32m = bech32m_const
checksum_constant _ = bech32_const

unfoldable pub verify_checksum : Bytes → Bytes → Encoding
verify_checksum hrp symbols =
    let residue = polymod (hrp_expand hrp ++ symbols) in
    if residue == bech32_const
    then bech32
    else if residue == bech32m_const
    then bech32m
    else invalid

-- The six groups of five bits, the highest first.
checksum_groups : ℕ → ℕ → Bytes
checksum_groups zero residue = []
checksum_groups (suc i) residue = residue / 2 ^ (5 * i) % 2 ^ 5 ∷ checksum_groups i residue

unfoldable pub create_checksum : Bytes → Bytes → Encoding → Bytes
unfolding checksum_groups
create_checksum hrp symbols encoding =
    checksum_groups 6 (
      bit_xor (polymod ((hrp_expand hrp ++ symbols) ++ replicate 6 0)) (checksum_constant encoding))

index_from : Bytes → ℕ → ℕ → Option ℕ
index_from [] i c = none
index_from (x ∷ xs) i c = let rest = index_from xs (i + 1) c in if x == c then some i else rest

-- `none` for the -1.
unfoldable pub charset_index : ℕ → Option ℕ
unfolding index_from
charset_index c = index_from charset 0 c

-- `while (bits >= tobits)`: the groups that are full, and how many bits are left.
group_loop : ℕ → ℕ → ℕ → ℕ → Bytes × ℕ
group_loop zero accumulator bits tobits = ([], bits)
group_loop (suc fuel) accumulator bits tobits =
    let (rest, left) = group_loop fuel accumulator (bits - tobits) tobits in
    if ltb bits tobits
    then ([], bits)
    else (accumulator / 2 ^ (bits - tobits) % 2 ^ tobits ∷ rest, left)

-- What is left of the accumulator and the bits behind the input, with the groups written.
bits_loop : Bytes → ℕ → ℕ → ℕ → ℕ → Option (Bytes × ℕ × ℕ)
unfolding group_loop
bits_loop [] frombits tobits accumulator bits = some ([], accumulator, bits)
bits_loop (value ∷ input) frombits tobits accumulator bits =
    let accumulator' =
      bit_or (accumulator * 2 ^ frombits % 2 ^ 32) value % 2 ^ (frombits + tobits - 1) in
    let (groups, left) = group_loop (bits + frombits) accumulator' (bits + frombits) tobits in
    let rest = bits_loop input frombits tobits accumulator' left in
    if not (value / 2 ^ frombits == 0)
    then none
    else elim rest [ none ↦ none | some (out, last, bits') ↦ some (groups ++ out, last, bits') ]

-- The bits that do not fill a group: padded, or refused unless they are few and zero.
last_group : ℕ → ℕ → Bool → Bytes × ℕ × ℕ → Option Bytes
last_group frombits tobits pad (out, accumulator, bits) =
    let padded = accumulator * 2 ^ (tobits - bits) % 2 ^ 32 % 2 ^ tobits in
    if pad
    then (if bits == 0 then some out else some (out ++ (padded ∷ [])))
    else if leb frombits bits || not (padded == 0)
    then none
    else some out

unfoldable pub convertbits : Bytes → ℕ → ℕ → Bool → Option Bytes
unfolding bits_loop last_group
convertbits input frombits tobits pad = elim (bits_loop input frombits tobits 0 0) [
  | none ↦ none
  | some done ↦ last_group frombits tobits pad done
]

pub record Decoded : Type 0 where
  pub hrp : Bytes
  pub symbols : Bytes
  pub encoding : Encoding

is_printable : Bytes → Bool
is_printable [] = true
is_printable (c ∷ text) = not (ltb c 33 || ltb 126 c) && is_printable text

has_lower : Bytes → Bool
has_lower [] = false
has_lower (c ∷ text) = leb b'a' c && leb c b'z' || has_lower text

has_upper : Bytes → Bool
has_upper [] = false
has_upper (c ∷ text) = leb b'A' c && leb c b'Z' || has_upper text

-- `rfind('1')`, with the index of the first character.
last_one : Bytes → ℕ → Option ℕ
last_one [] i = none
last_one (c ∷ text) i = elim (last_one text (i + 1)) [
  | some j ↦ some j
  | none ↦ if c == b'1' then some i else none
]

indices : Bytes → Option Bytes
indices [] = some []
indices (c ∷ text) = elim (charset_index c) [
  | none ↦ none
  | some index ↦ elim (indices text) [ none ↦ none | some rest ↦ some (index ∷ rest) ]
]

checked : Bytes → Bytes → Option Decoded
checked hrp symbols = elim (verify_checksum hrp symbols) [
  | invalid ↦ none
  | encoding ↦
      some record { hrp = hrp; symbols = take (length symbols - 6) symbols; encoding = encoding }
]

separated : Bytes → ℕ → Option Decoded
unfolding indices checked
separated lowered separator =
    if separator == 0 || ltb (length lowered) (separator + 7)
    then none
    else elim (indices (drop (separator + 1) lowered)) [
      | none ↦ none
      | some symbols ↦ checked (take separator lowered) symbols
    ]

unfoldable pub bech32_decode : Bytes → Option Decoded
unfolding is_printable has_lower has_upper last_one separated
bech32_decode text =
    let lowered = map to_lower text in
    if ltb (length text) 8 || ltb 90 (length text)
    then none
    else if not (is_printable text)
    then none
    else if has_lower text && has_upper text
    then none
    else elim (last_one lowered 0) [ none ↦ none | some separator ↦ separated lowered separator ]

pub record WitnessProgram : Type 0 where
  pub version : ℕ
  pub program : Bytes

unfoldable pub is_bech32 : Encoding → Bool
is_bech32 bech32 = true
is_bech32 _ = false

unfoldable pub is_bech32m : Encoding → Bool
is_bech32m bech32m = true
is_bech32m _ = false

-- The version with the encoding that belongs to it, and the sizes of a program of version 0.
unfoldable pub program_of : Encoding → ℕ → Bytes → Option WitnessProgram
unfolding is_bech32 is_bech32m
program_of encoding version program =
    if ltb (length program) 2 || ltb 40 (length program)
    then none
    else if version == 0
    then (if not (length program == 20) && not (length program == 32)
        then none
        else if is_bech32 encoding
        then some record { version = version; program = program }
        else none)
    else if is_bech32m encoding
    then some record { version = version; program = program }
    else none

unfoldable pub decoded_program : Encoding → Bytes → Option WitnessProgram
unfolding program_of
decoded_program encoding [] = none
decoded_program encoding (version ∷ data5) =
    if ltb 16 version then none else elim (convertbits data5 5 8 false) [
      | none ↦ none
      | some program ↦ program_of encoding version program
    ]

unfoldable pub segwit_address_decode : Bytes → Bytes → Option WitnessProgram
unfolding decoded_program
segwit_address_decode hrp address = elim (bech32_decode address) [
  | none ↦ none
  | some decoded ↦
      if not (same_bytes decoded.hrp hrp)
      then none
      else decoded_program decoded.encoding decoded.symbols
]

-- What the encoder throws.
pub data SegwitError : Type 0 where
  version_out_of_range length_out_of_range not_encoded : SegwitError

unfoldable pub segwit_address_encode : Bytes → ℕ → Bytes → Throws SegwitError Bytes
segwit_address_encode hrp version program =
    if ltb 16 version
    then throw version_out_of_range
    else if ltb (length program) 2 || ltb 40 (length program)
    then throw length_out_of_range
    else elim (convertbits program 8 5 true) [
      | none ↦ throw not_encoded
      | some converted ↦
          let symbols : Bytes = version ∷ converted in
          let encoding : Encoding = if version == 0 then bech32 else bech32m in
          ok (
            (hrp ++ (b'1' ∷ []))
            ++ map (λ value. get_or charset value 0)
                (symbols ++ create_checksum hrp symbols encoding))
    ]
