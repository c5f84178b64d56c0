-- ===== src/Tests/Bitcoin.antt =====
-- bitcoin/: heights and coinbase transactions.
use erikslund_solo_pool.Prelude.{
  ◌≤◌, ◌≡◌, refl, List, [], ◌∷◌, ◌++◌, Bytes, some, length, replicate, ok, arith,
}
use erikslund_solo_pool.Prelude.Int.{pos}
use erikslund_solo_pool.Util.Endian.{append_le32, write_le32}
use erikslund_solo_pool.Util.Varint.{encode_varint}
use erikslund_solo_pool.Bitcoin.Serialize.{serialize_height}
use erikslund_solo_pool.Bitcoin.Serialize.Height.{IsMinimal, serialize_height-IsMinimal}
use erikslund_solo_pool.Bitcoin.Coinbase.{
  CoinbaseOutput, build_coinbase1, build_coinbase2, max_script_sig, legacy_to_witness, prevout_null,
}
use erikslund_solo_pool.Bitcoin.Coinbase.Parse.{
  coinbase_transaction, transaction-build_coinbase, witness_transaction-legacy_to_witness,
}
use erikslund_solo_pool.Bitcoin.Transaction.{Transaction, transaction, witness_transaction}
use erikslund_solo_pool.Bitcoin.Transaction.Reads.{IsTransaction, transaction_bytes}

serialize_height-IsMinimal_example :
    (bytes : Bytes) × (serialize_height (pos 840000) ≡ ok (length bytes ∷ bytes))
    × IsMinimal 840000 bytes
serialize_height-IsMinimal_example = serialize_height-IsMinimal 840000 (omega arith) (omega arith)

abbrev prefix : Bytes
prefix = 3 ∷ 0x40 ∷ 0xd1 ∷ 0x0c ∷ []

abbrev extranonce : Bytes
extranonce = 1 ∷ 2 ∷ 3 ∷ 4 ∷ []

abbrev tag : Bytes
tag = b'p' ∷ b'o' ∷ b'o' ∷ b'l' ∷ []

abbrev outputs : List CoinbaseOutput
outputs = record { value = 312500000; script = 0x51 ∷ [] } ∷ []

abbrev required : List CoinbaseOutput
required = record { value = 0; script = 0x6a ∷ 0x01 ∷ 0x00 ∷ [] } ∷ []

abbrev front : Bytes
front =
    (2 ∷ 0 ∷ 0 ∷ 0 ∷ [])
    ++ ((1 ∷ []) ++ ((replicate 32 0 ++ (0xff ∷ 0xff ∷ 0xff ∷ 0xff ∷ [])) ++ ((12 ∷ []) ++ prefix)))

front_built : build_coinbase1 prefix 4 tag 2 ≡ ok front
unfolding build_coinbase1 prevout_null append_le32 encode_varint write_le32
front_built = refl

transaction-build_coinbase_example :
    (transaction (front ++ (extranonce ++ build_coinbase2 outputs required tag 0xffffffff 0))
      ≡ some (
        coinbase_transaction (prefix ++ (extranonce ++ tag)) (outputs ++ required) 2 0xffffffff 0,
        [],
      ))
    × (length (prefix ++ (extranonce ++ tag)) ≤ max_script_sig)
transaction-build_coinbase_example =
    transaction-build_coinbase prefix extranonce tag outputs required 2 0xffffffff 0 front
      front_built ((omega arith, omega arith), ((omega arith, omega arith), tt)) (omega arith)
      (omega arith) (omega arith) (omega arith)

abbrev sample : Transaction
sample = record {
  version = 2;
  prevout = replicate 36 0;
  script_sig = prefix;
  sequence = 0xffffffff;
  outputs = outputs;
  lock_time = 7;
}

sample-IsTransaction : IsTransaction sample
sample-IsTransaction = record {
  version_fits = omega arith;
  prevout_size = refl;
  script_fits = omega arith;
  sequence_fits = omega arith;
  count_fits = omega arith;
  outputs_fit = ((omega arith, omega arith), tt);
  lock_time_fits = omega arith;
}

witness_transaction-legacy_to_witness_example :
    (w : Bytes) × (legacy_to_witness (transaction_bytes sample) (replicate 32 0) ≡ ok w)
    × (witness_transaction w ≡ some ((sample, replicate 32 0), []))
witness_transaction-legacy_to_witness_example =
    witness_transaction-legacy_to_witness sample (replicate 32 0) sample-IsTransaction refl
