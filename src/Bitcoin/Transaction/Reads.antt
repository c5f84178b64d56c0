-- ===== src/Bitcoin/Transaction/Reads.antt =====
-- What the parser of transactions reads: the bytes of a transaction with one input.
use erikslund_solo_pool.Prelude.{
  ℕ, ◌^◌, ◌<◌, ◌≡◌, refl, List, [], ◌∷◌, ◌++◌, Bytes, some, length, All, take-append, drop-append,
  length-append, append_assoc, le→ltb, arith,
}
use erikslund_solo_pool.Util.Endian.{write_le32, write_le64}
use erikslund_solo_pool.Util.Endian.Laws.{read_le32-write_le32, read_le64-write_le64}
use erikslund_solo_pool.Util.Varint.{encode_varint}
use erikslund_solo_pool.Util.Varint.Laws.{decode_varint-encode_varint}
use erikslund_solo_pool.Bitcoin.Coinbase.{CoinbaseOutput}
use erikslund_solo_pool.Bitcoin.Transaction.{
  Transaction, Parser, ◌>>=◌, pure, bytes_of, le32, le64, varint, output, outputs_of, body,
  transaction,
}

-- `p` reads `a` from `bytes`, whatever follows them.
pub record Reads {A : Type 0} (p : Parser A) (bytes : Bytes) (a : A) : Type 0 where
  pub reads : (rest : Bytes) → p (bytes ++ rest) ≡ some (a, rest)

pub Reads-then :
    {A B : Type 0} {p : Parser A} (f : A → Parser B) {xs ys : Bytes} {a : A} {b : B}
    → Reads p xs a
    → Reads (f a) ys b
    → Reads (p >>= f) (xs ++ ys) b
unfolding ◌>>=◌
Reads-then f {xs} {ys} first second = record {
  reads = λ rest. rw (append_assoc xs ys rest, first.reads (ys ++ rest), ◌>>=◌) (second.reads rest);
}

pub Reads-last :
    {A B : Type 0} {p : Parser A} (f : A → B) {xs : Bytes} {a : A}
    → Reads p xs a
    → Reads (p >>= λ x. pure (f x)) xs (f a)
unfolding ◌>>=◌ pure
Reads-last f last = record { reads = λ rest. rw (last.reads rest, ◌>>=◌) }

pub bytes_of-Reads : (n : ℕ) (xs : Bytes) → length xs ≡ n → Reads (bytes_of n) xs xs
unfolding bytes_of
bytes_of-Reads n xs e = record {
  reads = λ rest. rw (
    ← e,
    le→ltb (length (xs ++ rest)) (length xs) (omega (arith, length-append xs rest)),
    take-append xs rest,
    drop-append xs rest,
  );
}

pub le32-Reads : (v : ℕ) → v < 2 ^ 32 → Reads le32 (write_le32 v) v
unfolding le32
le32-Reads v h = record {
  reads = λ rest.
      rw
        (
          le→ltb (length (write_le32 v ++ rest)) 4 (unfold write_le32 in omega arith),
          read_le32-write_le32 v rest h,
        )
        (unfold write_le32 in refl);
}

le64-Reads : (v : ℕ) → v < 2 ^ 64 → Reads le64 (write_le64 v) v
unfolding le64
le64-Reads v h = record {
  reads = λ rest.
      rw
        (
          le→ltb (length (write_le64 v ++ rest)) 8 (unfold write_le64 in omega arith),
          read_le64-write_le64 v rest h,
        )
        (unfold write_le64 in refl);
}

pub varint-Reads : (v : ℕ) → v < 2 ^ 64 → Reads varint (encode_varint v) v
unfolding varint
varint-Reads v h = record {
  reads = λ rest. rw (decode_varint-encode_varint v rest h, drop-append (encode_varint v) rest);
}

abbrev pub IsOutput : CoinbaseOutput → Type 0
IsOutput o = (o.value < 2 ^ 64) × (length o.script < 2 ^ 64)

unfoldable pub output_bytes : CoinbaseOutput → Bytes
output_bytes o = write_le64 o.value ++ (encode_varint (length o.script) ++ o.script)

output-Reads : (o : CoinbaseOutput) → IsOutput o → Reads output (output_bytes o) o
unfolding output output_bytes
output-Reads o h = Reads-then _ (le64-Reads o.value h.0) (
    Reads-then _ (varint-Reads (length o.script) h.1)
      (Reads-last _ (bytes_of-Reads _ o.script refl)))

unfoldable pub outputs_bytes : List CoinbaseOutput → Bytes
outputs_bytes [] = []
outputs_bytes (o ∷ os) = output_bytes o ++ outputs_bytes os

outputs-Reads :
    (os : List CoinbaseOutput)
    → All IsOutput os
    → Reads (outputs_of (length os)) (outputs_bytes os) os
unfolding outputs_of outputs_bytes
outputs-Reads [] h = record { reads = λ rest. refl }
outputs-Reads (o ∷ os) h = Reads-then _ (output-Reads o h.0) (Reads-last _ (outputs-Reads os h.1))

-- The transaction without its version and its lock time.
unfoldable pub body_bytes : Transaction → Bytes
body_bytes t =
    (1 ∷ [])
    ++ (t.prevout
        ++ (encode_varint (length t.script_sig)
            ++ (t.script_sig
                ++ (write_le32 t.sequence
                    ++ (encode_varint (length t.outputs) ++ outputs_bytes t.outputs)))))

-- The numbers fit their fields, and there is one outpoint.
pub record IsTransaction (t : Transaction) : Type 0 where
  pub version_fits : t.version < 2 ^ 32
  pub prevout_size : length t.prevout ≡ 36
  pub script_fits : length t.script_sig < 2 ^ 64
  pub sequence_fits : t.sequence < 2 ^ 32
  pub count_fits : length t.outputs < 2 ^ 64
  pub outputs_fit : All IsOutput t.outputs
  pub lock_time_fits : t.lock_time < 2 ^ 32

one-Reads : Reads varint (1 ∷ []) 1
one-Reads = unfold encode_varint in (varint-Reads 1 (omega arith))

pub body-Reads :
    (t : Transaction)
    → IsTransaction t
    → Reads body (body_bytes t) (t.prevout, t.script_sig, t.sequence, t.outputs)
unfolding body body_bytes
body-Reads t v = Reads-then _ one-Reads (
    Reads-then _ (bytes_of-Reads 36 t.prevout v.prevout_size) (
      Reads-then _ (varint-Reads (length t.script_sig) v.script_fits) (
        Reads-then _ (bytes_of-Reads _ t.script_sig refl) (
          Reads-then _ (le32-Reads t.sequence v.sequence_fits) (
            Reads-then _ (varint-Reads (length t.outputs) v.count_fits)
              (Reads-last _ (outputs-Reads t.outputs v.outputs_fit)))))))

abbrev pub transaction_bytes : Transaction → Bytes
transaction_bytes t = write_le32 t.version ++ (body_bytes t ++ write_le32 t.lock_time)

pub transaction-Reads :
    (t : Transaction) → IsTransaction t → Reads transaction (transaction_bytes t) t
unfolding transaction
transaction-Reads t v =
    Reads-then _ (le32-Reads t.version v.version_fits)
      (Reads-then _ (body-Reads t v) (Reads-last _ (le32-Reads t.lock_time v.lock_time_fits)))
