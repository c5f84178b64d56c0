-- ===== src/Sv2/Wire/Fields.antt =====
-- Each method of Writer fits the method of Reader of the same name.
use erikslund_solo_pool.Prelude.{
  ℕ, ◌*◌, ◌%◌, ◌^◌, ◌≤◌, ◌<◌, ◌≡◌, refl, Bool, true, false, List, [], ◌∷◌, ◌++◌, Bytes, Option,
  none, some, length, take-append, drop-append, length-append, All, le→ltb, ok, append_assoc,
  append-nil, arith,
}
use erikslund_solo_pool.Util.Endian.{
  read_le16, write_le16, write_le32, write_le64, append_le32, append_le64,
}
use erikslund_solo_pool.Util.Endian.Laws.{
  read_le16-write_le16, read_le32-write_le32, read_le64-write_le64,
}
use erikslund_solo_pool.Sv2.Writer.{Writer}
use erikslund_solo_pool.Sv2.Writer
use erikslund_solo_pool.Sv2.Reader.{Reader, pure, ◌>>=◌, taking}
use erikslund_solo_pool.Sv2.Reader
use erikslund_solo_pool.Sv2.Wire.{Encodes, Encodes-field, Encodes-last, Encodes-short}

-- `take` of exactly the bytes that stand in front.
taking-append : (n : ℕ) (xs rest : Bytes) → length xs ≡ n → taking n (xs ++ rest) ≡ ok (xs, rest)
unfolding taking
taking-append n xs rest e = rw (
  ← e,
  le→ltb (length (xs ++ rest)) (length xs) (omega (arith, length-append xs rest)),
  take-append xs rest,
  drop-append xs rest,
)

read_back16 : (v : ℕ) → v < 2 ^ 16 → read_le16 (write_le16 v) ≡ v
read_back16 v h = rw (append-nil (write_le16 v)) at (read_le16-write_le16 v [] h)

pub u8_fits : {v : ℕ} → v < 2 ^ 8 → Encodes 1 (Writer.u8 v) Reader.u8 v
unfolding Writer.u8 Reader.u8
u8_fits {v} h = record {
  bytes = v ∷ [];
  short = omega arith;
  writes = λ out. refl;
  reads = λ rest. rw (taking-append 1 (v ∷ []) rest refl);
}

pub u16_fits : {v : ℕ} → v < 2 ^ 16 → Encodes 2 (Writer.u16 v) Reader.u16 v
unfolding Writer.u16 Reader.u16
u16_fits {v} h = record {
  bytes = write_le16 v;
  short = unfold write_le16 in omega arith;
  writes = λ out. refl;
  reads = λ rest. rw (
    taking-append 2 (write_le16 v) rest (unfold write_le16 in refl),
    ← append-nil (write_le16 v),
    read_le16-write_le16 v [] h,
  );
}

pub u32_fits : {v : ℕ} → v < 2 ^ 32 → Encodes 4 (Writer.u32 v) Reader.u32 v
unfolding Writer.u32 Reader.u32 append_le32
u32_fits {v} h = record {
  bytes = write_le32 v;
  short = unfold write_le32 in omega arith;
  writes = λ out. refl;
  reads = λ rest. rw (
    taking-append 4 (write_le32 v) rest (unfold write_le32 in refl),
    ← append-nil (write_le32 v),
    read_le32-write_le32 v [] h,
  );
}

pub u64_fits : {v : ℕ} → v < 2 ^ 64 → Encodes 8 (Writer.u64 v) Reader.u64 v
unfolding Writer.u64 Reader.u64 append_le64
u64_fits {v} h = record {
  bytes = write_le64 v;
  short = unfold write_le64 in omega arith;
  writes = λ out. refl;
  reads = λ rest. rw (
    taking-append 8 (write_le64 v) rest (unfold write_le64 in refl),
    ← append-nil (write_le64 v),
    read_le64-write_le64 v [] h,
  );
}

pub f32_fits : {v : ℕ} → v < 2 ^ 32 → Encodes 4 (Writer.f32 v) Reader.f32 v
unfolding Writer.f32 Reader.f32
f32_fits h = u32_fits h

pub u256_fits : {v : Bytes} → length v ≡ 32 → Encodes 32 (Writer.u256 v) Reader.u256 v
unfolding Writer.u256 Reader.u256
u256_fits {v} h = record {
  bytes = v;
  short = omega arith;
  writes = λ out. refl;
  reads = λ rest. taking-append 32 v rest h;
}

pub boolean_fits : (b : Bool) → Encodes 1 (Writer.boolean b) Reader.boolean b
unfolding Writer.boolean Reader.boolean
boolean_fits true = record {
  bytes = 1 ∷ [];
  short = omega arith;
  writes = λ out. refl;
  reads = λ rest. rw (taking-append 1 (1 ∷ []) rest refl);
}
boolean_fits false = record {
  bytes = 0 ∷ [];
  short = omega arith;
  writes = λ out. refl;
  reads = λ rest. rw (taking-append 1 (0 ∷ []) rest refl);
}

pub string_fits : {v : Bytes} → length v ≤ 255 → Encodes 256 (Writer.string v) Reader.string v
unfolding Writer.string Reader.string
string_fits {v} h = record {
  bytes = length v % 256 ∷ v;
  short = omega arith;
  writes = λ out. rw (le→ltb 255 (length v) h, append_assoc out (length v % 256 ∷ []) v);
  reads = λ rest. rw (
    taking-append 1 (length v % 256 ∷ []) (v ++ rest) refl,
    taking-append (length v % 256) v rest (omega arith),
  );
}

pub b0_32_fits : {v : Bytes} → length v ≤ 32 → Encodes 33 (Writer.b0_32 v) Reader.b0_32 v
unfolding Writer.b0_32 Reader.b0_32
b0_32_fits {v} h = record {
  bytes = length v % 256 ∷ v;
  short = omega arith;
  writes = λ out. rw (le→ltb 32 (length v) h, append_assoc out (length v % 256 ∷ []) v);
  reads = λ rest. rw (
    taking-append 1 (length v % 256 ∷ []) (v ++ rest) refl,
    le→ltb 32 (length v % 256) (omega arith),
    taking-append (length v % 256) v rest (omega arith),
  );
}

pub b0_64k_fits : {v : Bytes} → length v ≤ 65535 → Encodes 65537 (Writer.b0_64k v) Reader.b0_64k v
unfolding Writer.b0_64k Reader.b0_64k
b0_64k_fits {v} h = record {
  bytes = write_le16 (length v % 65536) ++ v;
  short = unfold write_le16 in omega arith;
  writes =
      λ out. rw (le→ltb 65535 (length v) h, append_assoc out (write_le16 (length v % 65536)) v);
  reads = λ rest. rw (
    append_assoc (write_le16 (length v % 65536)) v rest,
    taking-append 2 (write_le16 (length v % 65536)) (v ++ rest) (unfold write_le16 in refl),
    read_back,
    taking-append (length v % 65536) v rest (omega arith),
  );
}
  where
    read_back : read_le16 (write_le16 (length v % 65536)) ≡ length v % 65536
    read_back = read_back16 (length v % 65536) (omega arith)

abbrev pub IsU256 : Bytes → Type 0
IsU256 v = length v ≡ 32

u256_each_fits :
    (vs : List Bytes)
    → All IsU256 vs
    → Encodes (32 * length vs) (Writer.u256_each vs) (Reader.u256_times (length vs)) vs
unfolding Writer.u256_each Reader.u256_times Writer.◌>>◌
u256_each_fits [] h = record {
  bytes = [];
  short = omega arith;
  writes = λ out. rw (append-nil out);
  reads = λ rest. refl;
}
u256_each_fits (v ∷ vs) h =
    Encodes-short (omega arith)
      (Encodes-field _ (u256_fits h.0) (Encodes-last _ (u256_each_fits vs h.1)))

pub sequence_u256_fits :
    {vs : List Bytes}
    → All IsU256 vs
    → length vs ≤ 255
    → Encodes 8161 (Writer.sequence_u256 vs) Reader.sequence_u256 vs
unfolding Writer.sequence_u256 Reader.sequence_u256
sequence_u256_fits {vs} each h =
    let p = u256_each_fits vs each in
    record {
      bytes = length vs % 256 ∷ p.bytes;
      short = omega (arith, p.short);
      writes = λ out. rw (
        le→ltb 255 (length vs) h,
        p.writes (out ++ (length vs % 256 ∷ [])),
        append_assoc out (length vs % 256 ∷ []) p.bytes,
      );
      reads = λ rest.
          rw (fits_a_byte, taking-append 1 (length vs ∷ []) (p.bytes ++ rest) refl) (p.reads rest);
    }
  where
    fits_a_byte : length vs % 256 ≡ length vs
    fits_a_byte = omega arith

abbrev pub IsOption : Option ℕ → Type 0
IsOption none = Unit {0}
IsOption (some v) = v < 2 ^ 32

pub option_u32_fits :
    (o : Option ℕ) → IsOption o → Encodes 5 (Writer.option_u32 o) Reader.option_u32 o
unfolding Writer.option_u32 Reader.option_u32
option_u32_fits none h = record {
  bytes = 0 ∷ [];
  short = omega arith;
  writes = λ out. refl;
  reads = λ rest. rw (taking-append 1 (0 ∷ []) rest refl);
}
option_u32_fits (some v) h = record {
  bytes = 1 ∷ write_le32 v;
  short = unfold write_le32 in omega arith;
  writes = λ out. unfold append_le32 in rw (append_assoc out (1 ∷ []) (write_le32 v));
  reads = λ rest. rw (
    taking-append 1 (1 ∷ []) (write_le32 v ++ rest) refl,
    taking-append 4 (write_le32 v) rest (unfold write_le32 in refl),
    ← append-nil (write_le32 v),
    read_le32-write_le32 v [] h,
  );
}
