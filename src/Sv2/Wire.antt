-- ===== src/Sv2/Wire.antt =====
-- A writer and a reader of sv2/messages.cpp that fit together, and how such pairs compose.
pub mod Fields
use erikslund_solo_pool.Prelude.{
  ℕ, ◌+◌, ◌≤◌, ◌≡◌, refl, [], ◌∷◌, ◌++◌, Bytes, length, length-append, Throws, ok, throw, bind,
  append_assoc, append-nil, arith,
}
use erikslund_solo_pool.Sv2.Codec.{CodecError, trailing_bytes}
use erikslund_solo_pool.Sv2.Writer.{Writer, ◌>>◌, taken}
use erikslund_solo_pool.Sv2.Reader.{Reader, ◌>>=◌, pure, decode, finish}

-- `w` appends certain bytes, at most `n`, whatever was written before, and `r` reads `a` from them and
-- leaves whatever follows.
pub record Encodes (n : ℕ) (w : Writer) {A : Type 0} (r : Reader A) (a : A) : Type 0 where
  pub bytes : Bytes
  pub short : length bytes ≤ n
  pub writes : (out : Bytes) → w out ≡ ok (out ++ bytes)
  pub reads : (rest : Bytes) → r (bytes ++ rest) ≡ ok (a, rest)

pub Encodes-short :
    {A : Type 0} {n k : ℕ} {w : Writer} {r : Reader A} {a : A}
    → n ≤ k
    → Encodes n w r a
    → Encodes k w r a
Encodes-short h p = record {
  bytes = p.bytes;
  short = omega (arith, p.short);
  writes = p.writes;
  reads = p.reads;
}

module _ {A B : Type 0} where
  -- One field, and then the others.
  pub Encodes-field :
      {n k : ℕ} {v w : Writer} {r : Reader A} (f : A → Reader B) {a : A} {b : B}
      → Encodes n v r a
      → Encodes k w (f a) b
      → Encodes (n + k) (v >> w) (r >>= f) b
  unfolding ◌>>◌ ◌>>=◌
  Encodes-field f {a = a} p q = record {
    bytes = p.bytes ++ q.bytes;
    short = omega (arith, p.short, q.short, length-append p.bytes q.bytes);
    writes = λ out. rw (p.writes out, q.writes (out ++ p.bytes), append_assoc out p.bytes q.bytes);
    reads =
        λ rest. rw (append_assoc p.bytes q.bytes rest, p.reads (q.bytes ++ rest)) (q.reads rest);
  }

  -- The last field, and the value built from all of them.
  pub Encodes-last :
      {n : ℕ} {w : Writer} {r : Reader A} (f : A → B) {a : A}
      → Encodes n w r a
      → Encodes n w (r >>= λ x. pure (f x)) (f a)
  unfolding ◌>>=◌ pure
  Encodes-last f p = record {
    bytes = p.bytes;
    short = p.short;
    writes = p.writes;
    reads = λ rest. rw (p.reads rest);
  }

-- What a whole message gives: the encoder returns bytes from which the decoder reads the message
-- back, and the decoder refuses them with anything behind.
pub record RoundTrip {A : Type 0} (n : ℕ) (encoded : Throws CodecError Bytes)
    (decoder : Bytes → Throws CodecError A) (a : A) : Type 0 where
  pub bytes : Bytes
  pub short : length bytes ≤ n
  pub encodes : encoded ≡ ok bytes
  pub decodes : decoder bytes ≡ ok a
  pub refuses : (x : ℕ) (more : Bytes) → decoder (bytes ++ (x ∷ more)) ≡ throw trailing_bytes

pub Encodes-RoundTrip :
    {A : Type 0} {n : ℕ} {w : Writer} {r : Reader A} {a : A}
    → Encodes n w r a
    → RoundTrip n (taken w) (λ p. decode p r) a
unfolding taken decode
Encodes-RoundTrip {A} {n} {w} {r} {a} p = record {
  bytes = p.bytes;
  short = p.short;
  encodes = p.writes [];
  decodes = rw whole;
  refuses = λ x more. rw (p.reads (x ∷ more)) (ground arith);
}
  where
    whole : r p.bytes ≡ ok (a, [])
    whole = rw (append-nil p.bytes) at (p.reads [])
