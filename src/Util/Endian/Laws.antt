-- ===== src/Util/Endian/Laws.antt =====
-- util/endian.hpp: what the readers and the writers do, as arithmetic, and the round trips.
use erikslund_solo_pool.Prelude.{
  ℕ, ◌+◌, ◌*◌, ◌/◌, ◌%◌, ◌^◌, ◌<◌, ◌≡◌, [], ◌∷◌, ◌++◌, Bytes, IsByte, IsBytes, arith,
}
use erikslund_solo_pool.Prelude.Bits.{bit_or-shift, shift-bit_or}
use erikslund_solo_pool.Util.Endian.{
  read_le16, read_le24, read_le32, read_le64, read_be32, write_le16, write_le24, write_le32,
  write_le64, write_be32,
}

pub read_le16-sum : (a b : ℕ) (rest : Bytes) → IsByte a → read_le16 (a ∷ b ∷ rest) ≡ a + b * 2 ^ 8
unfolding read_le16
read_le16-sum a b rest h = bit_or-shift 8 a b (omega arith)

pub read_le24-sum :
    (a b c : ℕ) (rest : Bytes)
    → IsByte a
    → IsByte b
    → read_le24 (a ∷ b ∷ c ∷ rest) ≡ a + b * 2 ^ 8 + c * 2 ^ 16
unfolding read_le24
read_le24-sum a b c rest ha hb =
    rw (bit_or-shift 8 a b (omega arith)) (bit_or-shift 16 (a + b * 2 ^ 8) c (omega arith))

pub read_le32-sum :
    (a b c d : ℕ) (rest : Bytes)
    → IsByte a
    → IsByte b
    → IsByte c
    → read_le32 (a ∷ b ∷ c ∷ d ∷ rest) ≡ a + b * 2 ^ 8 + c * 2 ^ 16 + d * 2 ^ 24
unfolding read_le32
read_le32-sum a b c d rest ha hb hc = rw (bit_or-shift 8 a b (omega arith)) (
    rw (bit_or-shift 16 (a + b * 2 ^ 8) c (omega arith))
      (bit_or-shift 24 (a + b * 2 ^ 8 + c * 2 ^ 16) d (omega arith)))

pub read_le16-write_le16 :
    (v : ℕ) (rest : Bytes) → v < 2 ^ 16 → read_le16 (write_le16 v ++ rest) ≡ v
unfolding write_le16
read_le16-write_le16 v rest h =
    rw (read_le16-sum (v % 256) (v / 2 ^ 8 % 256) rest (omega arith)) (omega arith)

pub read_le24-write_le24 :
    (v : ℕ) (rest : Bytes) → v < 2 ^ 24 → read_le24 (write_le24 v ++ rest) ≡ v
unfolding write_le24
read_le24-write_le24 v rest h =
    rw
      (read_le24-sum (v / 1 % 256) (v / 2 ^ 8 % 256) (v / 2 ^ 16 % 256) rest (omega arith)
        (omega arith))
      (omega arith)

pub read_le32-write_le32 :
    (v : ℕ) (rest : Bytes) → v < 2 ^ 32 → read_le32 (write_le32 v ++ rest) ≡ v
unfolding write_le32
read_le32-write_le32 v rest h =
    rw
      (read_le32-sum (v / 1 % 256) (v / 2 ^ 8 % 256) (v / 2 ^ 16 % 256) (v / 2 ^ 24 % 256) rest
        (omega arith) (omega arith) (omega arith))
      (omega arith)

-- The eight rounds of `read_le64`.
pub read_le64-sum :
    (a b c d e f g h : ℕ) (rest : Bytes)
    → IsBytes (a ∷ b ∷ c ∷ d ∷ e ∷ f ∷ g ∷ [])
    → read_le64 (a ∷ b ∷ c ∷ d ∷ e ∷ f ∷ g ∷ h ∷ rest)
      ≡ (a + b * 2 ^ 8 + c * 2 ^ 16 + d * 2 ^ 24)
        + (e * 2 ^ 32 + f * 2 ^ 40 + g * 2 ^ 48 + h * 2 ^ 56)
unfolding read_le64
read_le64-sum a b c d e f g h rest bytes = ground (
  arith,
  bit_or-shift 0 0 a,
  bit_or-shift 8 a b,
  bit_or-shift 16 (a + b * 2 ^ 8) c,
  bit_or-shift 24 (a + b * 2 ^ 8 + c * 2 ^ 16) d,
  bit_or-shift 32 (a + b * 2 ^ 8 + c * 2 ^ 16 + d * 2 ^ 24) e,
  bit_or-shift 40 (a + b * 2 ^ 8 + c * 2 ^ 16 + d * 2 ^ 24 + e * 2 ^ 32) f,
  bit_or-shift 48 (a + b * 2 ^ 8 + c * 2 ^ 16 + d * 2 ^ 24 + e * 2 ^ 32 + f * 2 ^ 40) g,
  bit_or-shift 56 (a + b * 2 ^ 8 + c * 2 ^ 16 + d * 2 ^ 24 + e * 2 ^ 32 + f * 2 ^ 40 + g * 2 ^ 48)
      h,
)

pub read_le64-write_le64 :
    (v : ℕ) (rest : Bytes) → v < 2 ^ 64 → read_le64 (write_le64 v ++ rest) ≡ v
unfolding write_le64
read_le64-write_le64 v rest h =
    rw
      (read_le64-sum (v / 1 % 256) (v / 2 ^ 8 % 256) (v / 2 ^ 16 % 256) (v / 2 ^ 24 % 256)
        (v / 2 ^ 32 % 256) (v / 2 ^ 40 % 256) (v / 2 ^ 48 % 256) (v / 2 ^ 56 % 256) rest
        (omega arith))
      (omega arith)

pub read_be32-sum :
    (a b c d : ℕ) (rest : Bytes)
    → IsByte b
    → IsByte c
    → IsByte d
    → read_be32 (a ∷ b ∷ c ∷ d ∷ rest) ≡ a * 2 ^ 24 + b * 2 ^ 16 + c * 2 ^ 8 + d
unfolding read_be32
read_be32-sum a b c d rest hb hc hd = ground (
  arith,
  shift-bit_or 24 a (b * 2 ^ 16),
  shift-bit_or 16 (a * 2 ^ 8 + b) (c * 2 ^ 8),
  shift-bit_or 8 (a * 2 ^ 16 + b * 2 ^ 8 + c) d,
)

pub read_be32-write_be32 :
    (v : ℕ) (rest : Bytes) → v < 2 ^ 32 → read_be32 (write_be32 v ++ rest) ≡ v
unfolding write_be32
read_be32-write_be32 v rest h =
    rw
      (read_be32-sum (v / 2 ^ 24 % 256) (v / 2 ^ 16 % 256) (v / 2 ^ 8 % 256) (v / 1 % 256) rest
        (omega arith) (omega arith) (omega arith))
      (omega arith)
