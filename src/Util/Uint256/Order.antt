-- ===== src/Util/Uint256/Order.antt =====
-- util/uint256.cpp: the order is that of the numbers that the bytes stand for.
use Prim.Native.Nat.{compare}
use erikslund_solo_pool.Prelude.{
  ℕ, zero, suc, ◌+◌, ◌*◌, ◌^◌, ◌≤◌, ◌<◌, ◌≡◌, ◌↔◌, refl, true, Bytes, IsBytes, get_or, [], ◌∷◌,
  arith,
}
use native.Mathlib.Nat.{pow-suc}
use erikslund_solo_pool.Util.Uint256.{compare_loop, compare_uint256, meets_target}

-- The number of the first `n` bytes, the lowest first.
unfoldable pub low_value : ℕ → Bytes → ℕ
low_value zero bytes = 0
low_value (suc n) bytes = low_value n bytes + get_or bytes n 0 * 256 ^ n

unfoldable pub uint256_value : Bytes → ℕ
unfolding low_value
uint256_value bytes = low_value 32 bytes

pub get_or-IsByte : (bytes : Bytes) (i : ℕ) → IsBytes bytes → get_or bytes i 0 < 256
get_or-IsByte [] i h = omega arith
get_or-IsByte (b ∷ bytes) zero h = h.0
get_or-IsByte (b ∷ bytes) (suc i) h = get_or-IsByte bytes i h.1

pub low_value-lt : (n : ℕ) (bytes : Bytes) → IsBytes bytes → low_value n bytes < 256 ^ n
unfolding low_value
low_value-lt zero bytes h = omega arith
low_value-lt (suc n) bytes h =
    grind (arith, low_value-lt n bytes h, get_or-IsByte bytes n h, pow-suc 256 n)

higher_decides : (x y p a b : ℕ) → x < p → a < b → x + a * p < y + b * p
higher_decides x y p a b low high = grind arith

compare_loop_value :
    (n : ℕ) (a b : Bytes)
    → IsBytes a
    → IsBytes b
    → compare_loop n a b ≡ compare (low_value n a) (low_value n b)
unfolding compare_loop low_value
compare_loop_value zero a b ha hb = refl
compare_loop_value (suc n) a b ha hb = ground (
  arith,
  compare_loop_value n a b ha hb,
  higher_decides (low_value n a) (low_value n b) (256 ^ n) (get_or a n 0) (get_or b n 0),
  higher_decides (low_value n b) (low_value n a) (256 ^ n) (get_or b n 0) (get_or a n 0),
  low_value-lt n a ha,
  low_value-lt n b hb,
)

-- The comparison of two hashes is that of the 256-bit numbers that they stand for.
pub compare_uint256_value :
    (a b : Bytes)
    → IsBytes a
    → IsBytes b
    → compare_uint256 a b ≡ compare (uint256_value a) (uint256_value b)
unfolding compare_uint256 uint256_value
compare_uint256_value a b ha hb = compare_loop_value 32 a b ha hb

-- For a hash and a target of bytes: the hash meets the target exactly when its number is at most
-- the target's.
pub meets_target_iff :
    (hash target : Bytes)
    → IsBytes hash
    → IsBytes target
    → (meets_target hash target ≡ true) ↔ (uint256_value hash ≤ uint256_value target)
unfolding meets_target
meets_target_iff hash target hh ht = ground (arith, compare_uint256_value hash target hh ht)
