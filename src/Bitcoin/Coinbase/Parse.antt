-- ===== src/Bitcoin/Coinbase/Parse.antt =====
-- bitcoin/coinbase.cpp: the two halves around an extranonce are the coinbase transaction that is
-- meant, and the form with a witness is the same transaction.
use erikslund_solo_pool.Prelude.{
  ℕ, ◌+◌, ◌-◌, ◌^◌, ◌≤◌, ◌<◌, ◌≡◌, refl, sym, ◌∙◌, List, [], ◌∷◌, ◌++◌, Bytes, some, length, All,
  drop-append, length-append, append_assoc, append-nil, le→ltb, ltb→le, ==_iff, take-append_add,
  drop-append_add, take_all, ltb, ok, ok_inj, arith, Bool-cases, inl, inr,
}
use erikslund_solo_pool.Util.Endian.{write_le32, append_le32, append_le64}
use erikslund_solo_pool.Util.Varint.{encode_varint}
use erikslund_solo_pool.Bitcoin.Coinbase.{
  CoinbaseOutput, append_output, append_outputs, build_coinbase1, build_coinbase2, prevout_null,
  max_script_sig, legacy_to_witness,
}
use erikslund_solo_pool.Bitcoin.Transaction.{
  Transaction, bytes_of, varint, transaction, witness_transaction,
}
use erikslund_solo_pool.Bitcoin.Transaction.Reads.{
  IsOutput, output_bytes, outputs_bytes, body_bytes, transaction_bytes, IsTransaction, Reads,
  Reads-then, Reads-last, le32-Reads, varint-Reads, bytes_of-Reads, body-Reads, transaction-Reads,
}

append_outputs_bytes :
    (out : Bytes) (os : List CoinbaseOutput) → append_outputs out os ≡ out ++ outputs_bytes os
unfolding append_outputs outputs_bytes append_output append_le64 output_bytes
append_outputs_bytes out [] = sym (append-nil out)
append_outputs_bytes out (o ∷ os) =
    append_outputs_bytes (append_output out o) os ∙ simp append_assoc

outputs_bytes-append :
    (os ps : List CoinbaseOutput) → outputs_bytes (os ++ ps) ≡ outputs_bytes os ++ outputs_bytes ps
unfolding outputs_bytes
outputs_bytes-append [] ps = refl
outputs_bytes-append (o ∷ os) ps = rw (
  outputs_bytes-append os ps,
  append_assoc (output_bytes o) (outputs_bytes os) (outputs_bytes ps),
)

-- The transaction that the pool means.
pub coinbase_transaction : Bytes → List CoinbaseOutput → ℕ → ℕ → ℕ → Transaction
coinbase_transaction script_sig outputs version sequence lock_time = record {
  version = version;
  prevout = prevout_null;
  script_sig = script_sig;
  sequence = sequence;
  outputs = outputs;
  lock_time = lock_time;
}

-- What `build_coinbase1` returns, if it returns.
build_coinbase1_lem :
    (prefix : Bytes) (total : ℕ) (tag : Bytes) (version : ℕ) (c1 : Bytes)
    → build_coinbase1 prefix total tag version ≡ ok c1
    → (length prefix + total + length tag ≤ max_script_sig)
      × (c1
          ≡ write_le32 version
            ++ ((1 ∷ [])
                ++ (prevout_null
                    ++ (encode_varint (length prefix + total + length tag) ++ prefix))))
unfolding build_coinbase1 append_le32
build_coinbase1_lem prefix total tag version c1 e =
    elim (Bool-cases (ltb max_script_sig (length prefix + total + length tag))) [
      | inl long ↦ absurd (ground arith)
      | inr fits ↦ (ltb→le _ _ fits, sym (ok_inj (rw fits at e)) ∙ simp append_assoc)
    ]

build_coinbase2_lem :
    (outputs required : List CoinbaseOutput) (tag : Bytes) (sequence lock_time : ℕ)
    → build_coinbase2 outputs required tag sequence lock_time
      ≡ tag
        ++ (write_le32 sequence
            ++ ((encode_varint (length (outputs ++ required))
                  ++ outputs_bytes (outputs ++ required))
                ++ write_le32 lock_time))
unfolding build_coinbase2 append_le32
build_coinbase2_lem outputs required tag sequence lock_time =
    simp (append_outputs_bytes, outputs_bytes-append, append_assoc, length-append)

-- A coinbase1 that was built, any extranonce of the agreed length, and a coinbase2 are together the
-- transaction with one null input whose script is the prefix, the extranonce and the tag, and with
-- the outputs and then the required ones; nothing is left over, and the script keeps its limit.
pub transaction-build_coinbase :
    (prefix extranonce tag : Bytes) (outputs required : List CoinbaseOutput)
    (version sequence lock_time : ℕ) (c1 : Bytes)
    → build_coinbase1 prefix (length extranonce) tag version ≡ ok c1
    → All IsOutput (outputs ++ required)
    → length (outputs ++ required) < 2 ^ 64
    → version < 2 ^ 32
    → sequence < 2 ^ 32
    → lock_time < 2 ^ 32
    → (transaction (c1 ++ (extranonce ++ build_coinbase2 outputs required tag sequence lock_time))
        ≡ some (
          coinbase_transaction
              (prefix ++ (extranonce ++ tag))
              (outputs ++ required)
              version
              sequence
              lock_time,
          [],
        ))
      × (length (prefix ++ (extranonce ++ tag)) ≤ max_script_sig)
unfolding coinbase_transaction
transaction-build_coinbase prefix extranonce tag outputs required version sequence lock_time c1 e
      outs count hv hs hl =
    let (short, c1_bytes) = build_coinbase1_lem prefix (length extranonce) tag version c1 e in
    let script : Bytes = prefix ++ (extranonce ++ tag) in
    let size : length prefix + length extranonce + length tag ≡ length script =
      omega (arith, length-append prefix (extranonce ++ tag), length-append extranonce tag) in
    let t : Transaction =
      coinbase_transaction script (outputs ++ required) version sequence lock_time in
    let v : IsTransaction t = record {
      version_fits = hv;
      prevout_size = unfold prevout_null in refl;
      script_fits = omega arith;
      sequence_fits = hs;
      count_fits = count;
      outputs_fit = outs;
      lock_time_fits = hl;
    } in
    let bytes : c1 ++ (extranonce ++ build_coinbase2 outputs required tag sequence lock_time)
        ≡ (write_le32 version ++ (body_bytes t ++ write_le32 lock_time)) ++ [] =
      rw (c1_bytes, size, build_coinbase2_lem outputs required tag sequence lock_time)
        (unfold body_bytes in simp (append_assoc, append-nil)) in
    (rw bytes ((transaction-Reads t v).reads []), omega arith)

two-Reads : Reads (bytes_of 2) (0 ∷ 1 ∷ []) (0 ∷ 1 ∷ [])
two-Reads = bytes_of-Reads 2 (0 ∷ 1 ∷ []) refl

one-Reads : (n : ℕ) → n ≡ 1 → Reads varint (encode_varint 1) n
one-Reads n e = rw e (varint-Reads 1 (omega arith))

witness_bytes : Transaction → Bytes → Bytes
witness_bytes t item =
    write_le32 t.version
    ++ ((0 ∷ 1 ∷ [])
        ++ (body_bytes t
            ++ (encode_varint 1 ++ (encode_varint 32 ++ (item ++ write_le32 t.lock_time)))))

witness-Reads :
    (t : Transaction) (item : Bytes)
    → IsTransaction t
    → length item ≡ 32
    → Reads witness_transaction (witness_bytes t item) (t, item)
unfolding witness_transaction witness_bytes
witness-Reads t item v h = Reads-then _ (le32-Reads t.version v.version_fits) (
    Reads-then _ two-Reads (
      Reads-then _ (body-Reads t v) (
        Reads-then _ (one-Reads 1 refl) (
          Reads-then _ (varint-Reads 32 (omega arith)) (
            Reads-then _ (bytes_of-Reads 32 item h)
              (Reads-last _ (le32-Reads t.lock_time v.lock_time_fits)))))))

-- Four bytes in front and four at the end are the version and the lock time.
legacy_to_witness_parts :
    (v b l item : Bytes)
    → length v ≡ 4
    → length l ≡ 4
    → length item ≡ 32
    → legacy_to_witness (v ++ (b ++ l)) item
      ≡ ok (
          v
          ++ ((0 ∷ 1 ∷ [])
              ++ (b ++ (encode_varint 1 ++ (encode_varint (length item) ++ (item ++ l))))))
unfolding legacy_to_witness
legacy_to_witness_parts v b l item hv hl hi =
    let total : length (v ++ (b ++ l)) ≡ 8 + length b =
      omega (arith, length-append v (b ++ l), length-append b l) in
    rw
      (
        le→ltb (length (v ++ (b ++ l))) 8 (omega arith),
        (==_iff (length item) 32).1 hi,
        take-append_add 4 0 v (b ++ l) (omega arith),
        drop-append_add 4 0 v (b ++ l) (omega arith),
        take-append_add (length (v ++ (b ++ l)) - 8) 0 b l (omega arith),
        drop-append_add (length (v ++ (b ++ l)) - 4) (length b) v (b ++ l) (omega arith),
        drop-append b l,
        take_all 4 l (omega arith),
      )
      (simp (append_assoc, append-nil))

-- The form with a witness is accepted for every transaction and a 32-byte item, and is the same
-- transaction with marker, flag and that one witness item.
pub witness_transaction-legacy_to_witness :
    (t : Transaction) (item : Bytes)
    → IsTransaction t
    → length item ≡ 32
    → (w : Bytes) × (legacy_to_witness (transaction_bytes t) item ≡ ok w)
      × (witness_transaction w ≡ some ((t, item), []))
witness_transaction-legacy_to_witness t item v h =
    (witness_bytes t item, built, (rw append-nil at ((witness-Reads t item v h).reads [])))
  where
    built : legacy_to_witness (transaction_bytes t) item ≡ ok (witness_bytes t item)
    built =
        legacy_to_witness_parts (write_le32 t.version) (body_bytes t) (write_le32 t.lock_time) item
          (unfold write_le32 in refl) (unfold write_le32 in refl) h
        ∙ (unfold witness_bytes in rw h)
