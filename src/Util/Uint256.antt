-- ===== src/Util/Uint256.antt =====
-- util/uint256.hpp and util/uint256.cpp: hashes and targets, 32 bytes with the lowest first.
pub mod Order
use Prim.Native.Nat.{compare, Ordering}
use erikslund_solo_pool.Prelude.{
  ℕ, zero, suc, ◌+◌, ◌-◌, ◌*◌, ◌^◌, Bool, true, false, ◌&&◌, [], ◌∷◌, ◌++◌, Bytes, length, get_or,
  replicate, ltb, ◌==◌, if◌then◌else◌, Throws, ok, throw, bind,
}
use erikslund_solo_pool.Util.Endian.{reversed}
use erikslund_solo_pool.Util.Hex.{HexError, from_hex, to_hex_reversed}

pub data Uint256Error : Type 0 where
  more_than_32_bytes longer_than_32_bytes : Uint256Error
  bad_hex : HexError → Uint256Error

unfoldable pub from_le_bytes : Bytes → Throws Uint256Error Bytes
from_le_bytes bytes =
    if ltb 32 (length bytes)
    then throw more_than_32_bytes
    else ok (bytes ++ replicate (32 - length bytes) 0)

as_uint256_error : Throws HexError Bytes → Throws Uint256Error Bytes
as_uint256_error (ok bytes) = ok bytes
as_uint256_error (throw e) = throw (bad_hex e)

-- `result.bytes_[i] = big_endian[big_endian.size() - 1 - i]`: the bytes in reverse, then zeros.
unfoldable pub from_display_hex : Bytes → Throws Uint256Error Bytes
unfolding as_uint256_error
from_display_hex text = bind (as_uint256_error (from_hex text)) λ big_endian.
    if ltb 32 (length big_endian)
    then throw longer_than_32_bytes
    else ok (reversed big_endian ++ replicate (32 - length big_endian) 0)

unfoldable pub to_display_hex : Bytes → Bytes
to_display_hex bytes = to_hex_reversed bytes

unfoldable pub is_zero : Bytes → Bool
is_zero [] = true
is_zero (byte ∷ bytes) = byte == 0 && is_zero bytes

-- `for (int i = 31; i >= 0; --i)`, with `n` indices left: the highest that differ decide.
compare_loop : ℕ → Bytes → Bytes → Ordering
compare_loop zero a b = Ordering.eq
compare_loop (suc i) a b =
    let rest = compare_loop i a b in
    if get_or a i 0 == get_or b i 0 then rest else compare (get_or a i 0) (get_or b i 0)

-- `operator<=>`.
unfoldable pub compare_uint256 : Bytes → Bytes → Ordering
unfolding compare_loop
compare_uint256 a b = compare_loop 32 a b

-- `hash <= target` of util/difficulty.cpp.
unfoldable pub meets_target : Bytes → Bytes → Bool
meets_target hash target = elim (compare_uint256 hash target) [ Ordering.gt ↦ false | _ ↦ true ]
