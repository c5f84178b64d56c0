-- ===== src/Sv2/Reader.antt =====
-- sv2/messages.cpp, class Reader and the template `decode`: the state is the bytes from `offset_`
-- on; a method returns its value with the bytes that it left, or throws.
use erikslund_solo_pool.Prelude.{
  ℕ, zero, suc, ◌%◌, Bool, not, List, [], ◌∷◌, Bytes, Option, none, some, length, take, drop,
  get_or, ltb, ◌==◌, if◌then◌else◌, Throws, ok, throw, bind,
}
use erikslund_solo_pool.Util.Endian.{read_le16, read_le32, read_le64}
use erikslund_solo_pool.Sv2.Codec.{
  CodecError, b0_32_exceeds_32, option_count_exceeds_one, trailing_bytes, truncated_message,
}

abbrev pub Reader : Type 0 → Type 0
Reader A = Bytes → Throws CodecError (A × Bytes)

unfoldable pub pure : {A : Type 0} → A → Reader A
pure a rest = ok (a, rest)

infixl 5 ◌>>=◌
unfoldable pub ◌>>=◌ : {A B : Type 0} → Reader A → (A → Reader B) → Reader B
◌>>=◌ r f bytes = bind (r bytes) (λ p. f p.0 p.1)

unfoldable pub taking : ℕ → Reader Bytes
taking count rest =
    if ltb (length rest) count
    then throw truncated_message
    else ok (take count rest, drop count rest)

unfoldable pub u8 : Reader ℕ
unfolding ◌>>=◌ pure taking
u8 = do value ← taking 1; pure (get_or value 0 0)

unfoldable pub u16 : Reader ℕ
unfolding ◌>>=◌ pure taking
u16 = do value ← taking 2; pure (read_le16 value)

unfoldable pub u32 : Reader ℕ
unfolding ◌>>=◌ pure taking
u32 = do value ← taking 4; pure (read_le32 value)

unfoldable pub u64 : Reader ℕ
unfolding ◌>>=◌ pure taking
u64 = do value ← taking 8; pure (read_le64 value)

unfoldable pub f32 : Reader ℕ
unfolding u32
f32 = u32

-- `(u8() & 1U) != 0`.
unfoldable pub boolean : Reader Bool
unfolding ◌>>=◌ pure u8
boolean = do value ← u8; pure (not (value % 2 == 0))

unfoldable pub u256 : Reader Bytes
unfolding taking
u256 = taking 32

unfoldable pub string : Reader Bytes
unfolding ◌>>=◌ u8 taking
string = do size ← u8; taking size

unfoldable pub b0_32 : Reader Bytes
unfolding ◌>>=◌ u8 taking
b0_32 = do size ← u8; if ltb 32 size then (λ _. throw b0_32_exceeds_32) else taking size

unfoldable pub b0_64k : Reader Bytes
unfolding ◌>>=◌ u16 taking
b0_64k = do size ← u16; taking size

-- `for (index = 0; index < size; ++index) values.push_back(u256());`
unfoldable pub u256_times : ℕ → Reader (List Bytes)
unfolding ◌>>=◌ pure u256
u256_times zero = pure []
u256_times (suc n) = do value ← u256; values ← u256_times n; pure (value ∷ values)

unfoldable pub sequence_u256 : Reader (List Bytes)
unfolding ◌>>=◌ u8 u256_times
sequence_u256 = do size ← u8; u256_times size

unfoldable pub option_u32 : Reader (Option ℕ)
unfolding ◌>>=◌ pure u8 u32
option_u32 = do
  count ← u8
  if count == 0
      then pure none
      else if count == 1
      then (do value ← u32; pure (some value))
      else (λ _. throw option_count_exceeds_one)

unfoldable pub finish : {A : Type 0} → A × Bytes → Throws CodecError A
finish p = if length p.1 == 0 then ok p.0 else throw trailing_bytes

unfoldable pub decode : {A : Type 0} → Bytes → Reader A → Throws CodecError A
unfolding finish
decode payload parse = bind (parse payload) finish
