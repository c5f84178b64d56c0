-- ===== src/Util/Varint.antt =====
-- util/varint.hpp and util/varint.cpp: CompactSize numbers.
pub mod Laws
use erikslund_solo_pool.Prelude.{
  ℕ, zero, suc, ◌+◌, ◌*◌, ◌/◌, ◌%◌, ◌^◌, [], ◌∷◌, Bytes, length, get_or, drop, ltb, leb, ◌==◌,
  if◌then◌else◌, Throws, ok, throw,
}
use erikslund_solo_pool.Util.Endian.{read_le16, read_le32, read_le64}

-- The exceptions, one for each message text.
pub data VarintError : Type 0 where
  empty_input truncated_2_byte truncated_4_byte truncated_8_byte : VarintError

pub record Varint : Type 0 where
  pub value : ℕ
  pub consumed : ℕ

-- `out.push_back(uint8_t(value >> (8 * i)))` for the `n` indices from `i` on.
push_le : ℕ → ℕ → ℕ → Bytes
push_le zero i value = []
push_le (suc n) i value = (value / 2 ^ (8 * i)) % 256 ∷ push_le n (i + 1) value

unfoldable pub encode_varint : ℕ → Bytes
unfolding push_le
encode_varint value =
    if ltb value 0xfd
    then value % 256 ∷ []
    else if leb value 0xffff
    then 0xfd ∷ value % 256 ∷ (value / 2 ^ 8) % 256 ∷ []
    else if leb value 0xffff_ffff
    then 0xfe ∷ push_le 4 0 value
    else 0xff ∷ push_le 8 0 value

decode_first : ℕ → Bytes → Throws VarintError Varint
decode_first first input =
    if ltb first 0xfd
    then ok (record { value = first; consumed = 1 })
    else if first == 0xfd
    then (if ltb (length input) 3
        then throw truncated_2_byte
        else ok (record { value = read_le16 (drop 1 input); consumed = 3 }))
    else if first == 0xfe
    then (if ltb (length input) 5
        then throw truncated_4_byte
        else ok (record { value = read_le32 (drop 1 input); consumed = 5 }))
    else if ltb (length input) 9
    then throw truncated_8_byte
    else ok (record { value = read_le64 (drop 1 input); consumed = 9 })

unfoldable pub decode_varint : Bytes → Throws VarintError Varint
unfolding decode_first
decode_varint [] = throw empty_input
decode_varint (first ∷ rest) = decode_first first (first ∷ rest)
