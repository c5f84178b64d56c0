-- ===== src/Bitcoin/Serialize.antt =====
-- bitcoin/serialize.hpp: the block height as the first push of the coinbase script (BIP34).
pub mod Height
use erikslund_solo_pool.Prelude.{
  ℕ, zero, suc, ◌+◌, ◌/◌, ◌%◌, ◌^◌, [], ◌∷◌, ◌++◌, Bytes, length, ltb, leb, ◌==◌, if◌then◌else◌,
  ◌&&◌, Throws, ok, throw,
}
use erikslund_solo_pool.Prelude.Int.{ℤ, pos, negsuc}

pub data SerializeError : Type 0 where
  negative_block_height : SerializeError

-- `while (n) { push_back(n & 0xff); n >>= 8; }`. A positive `int64_t` has eight bytes at most.
magnitude_loop : ℕ → ℕ → Bytes
magnitude_loop zero n = []
magnitude_loop (suc fuel) n =
    let rest = magnitude_loop fuel (n / 2 ^ 8) in if n == 0 then [] else n % 256 ∷ rest

unfoldable pub last_byte : Bytes → ℕ
last_byte [] = 0
last_byte (b ∷ []) = b
last_byte (b ∷ (c ∷ bs)) = last_byte (c ∷ bs)

-- `magnitude.back() & 0x80`.
unfoldable pub magnitude : ℕ → Bytes
unfolding magnitude_loop
magnitude n =
    let bytes = magnitude_loop 8 n in
    if last_byte bytes / 2 ^ 7 % 2 == 0 then bytes else bytes ++ (0 ∷ [])

unfoldable pub serialize_height : ℤ → Throws SerializeError Bytes
serialize_height (negsuc n) = throw negative_block_height
serialize_height (pos height) =
    if height == 0
    then ok (0 ∷ [])
    else if leb 1 height && leb height 16
    then ok ((0x50 + height) % 256 ∷ [])
    else ok (length (magnitude height) % 256 ∷ magnitude height)
