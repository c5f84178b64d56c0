-- ===== src/Tests/Util.antt =====
-- util/: texts, numbers and trees.
use erikslund_solo_pool.Prelude.{
  ℕ, zero, suc, ◌-◌, ◌*◌, ◌/◌, ◌^◌, ◌≤◌, ◌≡◌, ◌↔◌, refl, true, List, [], ◌∷◌, ◌++◌, map, Bytes,
  IsBytes, some, length, replicate, get_or, ok, arith,
}
use erikslund_solo_pool.Util.Varint.{encode_varint, decode_varint}
use erikslund_solo_pool.Util.Varint.Laws.{decode_varint-encode_varint}
use erikslund_solo_pool.Util.Hex.{to_hex, try_from_hex, try_parse_hex_u32, hex_byte, hex_table}
use erikslund_solo_pool.Util.Hex.Laws.{to_lower, try_from_hex-to_hex, to_hex-try_from_hex}
use erikslund_solo_pool.Util.Hex.Words.{canonical, canonical_iff}
use erikslund_solo_pool.Util.Uint256.{meets_target}
use erikslund_solo_pool.Util.Uint256.Order.{uint256_value, meets_target_iff}
use erikslund_solo_pool.Util.Difficulty.{target_from_compact}
use erikslund_solo_pool.Util.Difficulty.Compact.{
  target_from_compact_small, target_from_compact_large,
}
use erikslund_solo_pool.Util.Merkle.{
  Hash256, merkle_root, merkle_branch, merkle_root_from_branch, root_loop,
}
use erikslund_solo_pool.Util.Merkle.Branch.{merkle_root-merkle_branch, root_loop_ends}

decode_varint-encode_varint_example :
    decode_varint (encode_varint 300 ++ (7 ∷ []))
    ≡ ok (record { value = 300; consumed = length (encode_varint 300) })
decode_varint-encode_varint_example = decode_varint-encode_varint 300 (7 ∷ []) (omega arith)

abbrev two_bytes : Bytes
two_bytes = 0x1f ∷ 0xa0 ∷ []

try_from_hex-to_hex_example : try_from_hex (to_hex two_bytes) ≡ some two_bytes
try_from_hex-to_hex_example = try_from_hex-to_hex two_bytes (omega arith, (omega arith, tt))

abbrev mixed_text : Bytes
mixed_text = b'1' ∷ b'F' ∷ b'a' ∷ b'0' ∷ []

mixed_text_read : try_from_hex mixed_text ≡ some two_bytes
unfolding try_from_hex hex_byte hex_table
mixed_text_read = refl

to_hex-try_from_hex_example : IsBytes two_bytes × (to_hex two_bytes ≡ map to_lower mixed_text)
to_hex-try_from_hex_example = to_hex-try_from_hex mixed_text two_bytes mixed_text_read

abbrev short_a : Bytes
short_a = b'a' ∷ []

abbrev padded_a : Bytes
padded_a = b'0' ∷ b'A' ∷ []

short_a_read : try_parse_hex_u32 short_a ≡ some 10
unfolding try_parse_hex_u32 hex_table
short_a_read = refl

padded_a_read : try_parse_hex_u32 padded_a ≡ some 10
unfolding try_parse_hex_u32 hex_table
padded_a_read = refl

canonical_iff_example : (canonical short_a ≡ canonical padded_a) ↔ ◌≡◌ {A = ℕ} 10 10
canonical_iff_example = canonical_iff short_a padded_a 10 10 short_a_read padded_a_read

zeros-IsBytes : (n : ℕ) → IsBytes (replicate n 0)
zeros-IsBytes zero = tt
zeros-IsBytes (suc n) = (omega arith, zeros-IsBytes n)

abbrev five : Bytes
five = 5 ∷ replicate 31 0

meets_target_iff_example :
    (meets_target five (0 ∷ 1 ∷ replicate 30 0) ≡ true)
    ↔ (uint256_value five ≤ uint256_value (0 ∷ 1 ∷ replicate 30 0))
meets_target_iff_example =
    meets_target_iff five (0 ∷ 1 ∷ replicate 30 0) (omega arith, zeros-IsBytes 31)
      (omega arith, (omega arith, zeros-IsBytes 30))

-- Stands for the hash of 64 bytes.
abbrev first_bytes : Bytes → Hash256
first_bytes bytes = get_or bytes 0 0 ∷ get_or bytes 2 0 ∷ []

abbrev three_leaves : List Hash256
three_leaves = (1 ∷ 2 ∷ []) ∷ (3 ∷ 4 ∷ []) ∷ (5 ∷ 6 ∷ []) ∷ []

merkle_root-merkle_branch_example :
    merkle_root_from_branch first_bytes (9 ∷ 8 ∷ []) (merkle_branch first_bytes three_leaves)
    ≡ merkle_root first_bytes ((9 ∷ 8 ∷ []) ∷ three_leaves)
merkle_root-merkle_branch_example = merkle_root-merkle_branch first_bytes (9 ∷ 8 ∷ []) three_leaves

root_loop_ends_example : length (root_loop first_bytes (length three_leaves) three_leaves) ≡ 1
root_loop_ends_example = root_loop_ends first_bytes three_leaves (omega arith)

target_from_compact_small_example :
    uint256_value (target_from_compact 0x02123456) ≡ 0x123456 / 2 ^ (8 * (3 - 2))
target_from_compact_small_example = target_from_compact_small 0x02123456 (omega arith)

target_from_compact_large_example :
    uint256_value (target_from_compact 0x1d00ffff) ≡ 0xffff * 256 ^ (0x1d - 3)
target_from_compact_large_example = target_from_compact_large 0x1d00ffff (omega arith) (omega arith)
