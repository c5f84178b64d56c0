-- ===== src/Util/Varint/Laws.antt =====
-- util/varint.cpp: a number is read back from its encoding, and no encoding is a prefix of another.
use erikslund_solo_pool.Prelude.{
  ℕ, ◌%◌, ◌^◌, ◌<◌, ◌≡◌, ◌∷◌, ◌++◌, Bytes, length, ok, arith, ltb, leb, Bool-cases, inl, inr,
  ltb→lt, le→ltb,
}
use erikslund_solo_pool.Util.Endian.{write_le16, write_le32, write_le64}
use erikslund_solo_pool.Util.Endian.Laws.{
  read_le16-write_le16, read_le32-write_le32, read_le64-write_le64,
}
use erikslund_solo_pool.Util.Varint.{encode_varint, decode_varint}

-- Every 64-bit number is read back from its encoding, whatever follows it, and just its bytes are
-- consumed.
pub decode_varint-encode_varint :
    (value : ℕ) (rest : Bytes)
    → value < 2 ^ 64
    → decode_varint (encode_varint value ++ rest)
      ≡ ok (record { value = value; consumed = length (encode_varint value) })
unfolding encode_varint decode_varint write_le16 write_le32 write_le64
decode_varint-encode_varint value rest h = elim (Bool-cases (ltb value 0xfd)) [
  | inl one ↦
      let same : value % 256 ≡ value = omega (arith, ltb→lt value 0xfd one) in rw (one, same, one)
  | inr big ↦ elim (Bool-cases (leb value 0xffff)) [
    | inl two ↦ rw (
      big,
      two,
      le→ltb (length (0xfd ∷ (write_le16 value ++ rest))) 3 (omega arith),
      read_le16-write_le16 value rest (ground arith),
    )
    | inr bigger ↦ elim (Bool-cases (leb value 0xffff_ffff)) [
      | inl four ↦ rw (
        big,
        bigger,
        four,
        le→ltb (length (0xfe ∷ (write_le32 value ++ rest))) 5 (omega arith),
        read_le32-write_le32 value rest (ground arith),
      )
      | inr eight ↦ rw (
        big,
        bigger,
        eight,
        le→ltb (length (0xff ∷ (write_le64 value ++ rest))) 9 (omega arith),
        read_le64-write_le64 value rest h,
      )
    ]
  ]
]
