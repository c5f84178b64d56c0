-- ===== src/Sv2/Writer.antt =====
-- sv2/messages.cpp, class Writer: each method appends to the bytes written so far, or throws.
use erikslund_solo_pool.Prelude.{
  ℕ, ◌%◌, Bool, List, [], ◌∷◌, ◌++◌, Bytes, Option, none, some, length, ltb, if◌then◌else◌, Throws,
  ok, throw, bind,
}
use erikslund_solo_pool.Util.Endian.{write_le16, append_le32, append_le64}
use erikslund_solo_pool.Sv2.Codec.{
  CodecError, str0_255_exceeds_255, b0_32_exceeds_32, b0_64k_exceeds_65535, seq0_255_exceeds_255,
}

abbrev pub Writer : Type 0
Writer = Bytes → Throws CodecError Bytes

infixr 5 ◌>>◌
unfoldable pub ◌>>◌ : Writer → Writer → Writer
◌>>◌ v w out = bind (v out) w

unfoldable pub u8 : ℕ → Writer
u8 value out = ok (out ++ (value ∷ []))

unfoldable pub u16 : ℕ → Writer
u16 value out = ok (out ++ write_le16 value)

unfoldable pub u32 : ℕ → Writer
u32 value out = ok (append_le32 out value)

unfoldable pub u64 : ℕ → Writer
u64 value out = ok (append_le64 out value)

-- A float is its 32-bit pattern, so `bit_cast` is the identity.
unfoldable pub f32 : ℕ → Writer
unfolding u32
f32 value = u32 value

unfoldable pub u256 : Bytes → Writer
u256 value out = ok (out ++ value)

unfoldable pub boolean : Bool → Writer
unfolding u8
boolean value = u8 (if value then 1 else 0)

unfoldable pub string : Bytes → Writer
unfolding u8
string value out =
    if ltb 255 (length value)
    then throw str0_255_exceeds_255
    else bind (u8 (length value % 256) out) (λ out'. ok (out' ++ value))

unfoldable pub b0_32 : Bytes → Writer
unfolding u8
b0_32 value out =
    if ltb 32 (length value)
    then throw b0_32_exceeds_32
    else bind (u8 (length value % 256) out) (λ out'. ok (out' ++ value))

unfoldable pub b0_64k : Bytes → Writer
unfolding u16
b0_64k value out =
    if ltb 65535 (length value)
    then throw b0_64k_exceeds_65535
    else bind (u16 (length value % 65536) out) (λ out'. ok (out' ++ value))

-- `for (const U256& value : values) u256(value);`
unfoldable pub u256_each : List Bytes → Writer
unfolding u256
u256_each [] out = ok out
u256_each (value ∷ values) out = bind (u256 value out) (u256_each values)

unfoldable pub sequence_u256 : List Bytes → Writer
unfolding u8 u256_each
sequence_u256 values out =
    if ltb 255 (length values)
    then throw seq0_255_exceeds_255
    else bind (u8 (length values % 256) out) (u256_each values)

unfoldable pub option_u32 : Option ℕ → Writer
unfolding u8 u32
option_u32 none out = u8 0 out
option_u32 (some value) out = bind (u8 1 out) (u32 value)

-- `std::move(writer).take()` of a writer that started empty.
unfoldable pub taken : Writer → Throws CodecError Bytes
taken w = w []
