-- ===== src/Util/Endian.antt =====
-- util/endian.hpp: integers to bytes and back. A pointer is the list of the bytes from it on; a
-- writer returns the bytes that it stores. A read beyond the list, which the code leaves undefined,
-- is 0 here. `uint8_t(v)` is `v % 256` and `v >> k` is `v / 2 ^ k`.
pub mod Laws
use erikslund_solo_pool.Prelude.{
  ℕ, zero, suc, ◌+◌, ◌-◌, ◌*◌, ◌/◌, ◌%◌, ◌^◌, bit_or, [], ◌∷◌, ◌++◌, Bytes, get_or, length,
}

unfoldable pub read_le16 : Bytes → ℕ
read_le16 p = bit_or (get_or p 0 0) (get_or p 1 0 * 2 ^ 8)

unfoldable pub read_le24 : Bytes → ℕ
read_le24 p = bit_or (bit_or (get_or p 0 0) (get_or p 1 0 * 2 ^ 8)) (get_or p 2 0 * 2 ^ 16)

unfoldable pub read_le32 : Bytes → ℕ
read_le32 p =
    bit_or (bit_or (bit_or (get_or p 0 0) (get_or p 1 0 * 2 ^ 8)) (get_or p 2 0 * 2 ^ 16))
      (get_or p 3 0 * 2 ^ 24)

-- `v |= uint64_t(p[i]) << (8 * i)` for the `n` indices from `i` on.
read_le_loop : ℕ → ℕ → ℕ → Bytes → ℕ
read_le_loop zero i v p = v
read_le_loop (suc n) i v p = read_le_loop n (i + 1) (bit_or v (get_or p i 0 * 2 ^ (8 * i))) p

unfoldable pub read_le64 : Bytes → ℕ
unfolding read_le_loop
read_le64 p = read_le_loop 8 0 0 p

unfoldable pub read_be32 : Bytes → ℕ
read_be32 p =
    bit_or (bit_or (bit_or (get_or p 0 0 * 2 ^ 24) (get_or p 1 0 * 2 ^ 16)) (get_or p 2 0 * 2 ^ 8))
      (get_or p 3 0)

-- `v = (v << 8) | uint64_t(p[i])`.
read_be_loop : ℕ → ℕ → ℕ → Bytes → ℕ
read_be_loop zero i v p = v
read_be_loop (suc n) i v p = read_be_loop n (i + 1) (bit_or (v * 2 ^ 8 % 2 ^ 64) (get_or p i 0)) p

unfoldable pub read_be64 : Bytes → ℕ
unfolding read_be_loop
read_be64 p = read_be_loop 8 0 0 p

unfoldable pub write_le16 : ℕ → Bytes
write_le16 v = v % 256 ∷ (v / 2 ^ 8) % 256 ∷ []

-- `p[i] = uint8_t(v >> (8 * i))` for the `n` indices from `i` on.
unfoldable pub write_le_loop : ℕ → ℕ → ℕ → Bytes
write_le_loop zero i v = []
write_le_loop (suc n) i v = (v / 2 ^ (8 * i)) % 256 ∷ write_le_loop n (i + 1) v

unfoldable pub write_le24 : ℕ → Bytes
unfolding write_le_loop
write_le24 v = write_le_loop 3 0 v

unfoldable pub write_le32 : ℕ → Bytes
unfolding write_le_loop
write_le32 v = write_le_loop 4 0 v

unfoldable pub write_le64 : ℕ → Bytes
unfolding write_le_loop
write_le64 v = write_le_loop 8 0 v

-- `p[i] = uint8_t(v >> (8 * (last - i)))` for the `n` indices from `i` on.
write_be_loop : ℕ → ℕ → ℕ → ℕ → Bytes
write_be_loop zero last i v = []
write_be_loop (suc n) last i v = (v / 2 ^ (8 * (last - i))) % 256 ∷ write_be_loop n last (i + 1) v

unfoldable pub write_be32 : ℕ → Bytes
unfolding write_be_loop
write_be32 v = write_be_loop 4 3 0 v

unfoldable pub write_be64 : ℕ → Bytes
unfolding write_be_loop
write_be64 v = write_be_loop 8 7 0 v

unfoldable pub le32_bytes : ℕ → Bytes
unfolding write_le32
le32_bytes v = write_le32 v

unfoldable pub le64_bytes : ℕ → Bytes
unfolding write_le64
le64_bytes v = write_le64 v

-- The tail that `resize` adds is overwritten whole.
unfoldable pub append_le32 : Bytes → ℕ → Bytes
append_le32 dst v = dst ++ write_le32 v

unfoldable pub append_le64 : Bytes → ℕ → Bytes
append_le64 dst v = dst ++ write_le64 v

-- `out[i] = in[in.size() - 1 - i]` for the `n` indices from `i` on.
reversed_loop : ℕ → ℕ → Bytes → Bytes
reversed_loop zero i input = []
reversed_loop (suc n) i input =
    get_or input (length input - 1 - i) 0 ∷ reversed_loop n (i + 1) input

unfoldable pub reversed : Bytes → Bytes
unfolding reversed_loop
reversed input = reversed_loop (length input) 0 input
