-- ===== src/Bitcoin/Coinbase.antt =====
-- bitcoin/coinbase.hpp and bitcoin/coinbase.cpp: the two halves of the coinbase transaction, between
-- which a miner puts its extranonce, and the form with a witness that goes into a block.
pub mod Parse
use erikslund_solo_pool.Prelude.{
  ℕ, ◌+◌, ◌-◌, List, [], ◌∷◌, ◌++◌, Bytes, length, take, drop, replicate, ltb, ◌==◌, not,
  if◌then◌else◌, Throws, ok, throw, bind,
}
use erikslund_solo_pool.Prelude.Int.{ℤ}
use erikslund_solo_pool.Util.Endian.{append_le32, append_le64}
use erikslund_solo_pool.Util.Varint.{encode_varint}
use erikslund_solo_pool.Bitcoin.Serialize.{SerializeError, serialize_height}

pub data CoinbaseError : Type 0 where
  script_sig_too_long coinbase_too_short witness_item_not_32_bytes : CoinbaseError
  bad_height : SerializeError → CoinbaseError

abbrev pub max_script_sig : ℕ
max_script_sig = 100

pub record CoinbaseOutput : Type 0 where
  pub value : ℕ
  pub script : Bytes

unfoldable pub append_output : Bytes → CoinbaseOutput → Bytes
append_output bytes output =
    (append_le64 bytes output.value ++ encode_varint (length output.script)) ++ output.script

unfoldable pub prevout_null : Bytes
prevout_null = replicate 32 0 ++ (0xff ∷ 0xff ∷ 0xff ∷ 0xff ∷ [])

unfoldable pub build_coinbase1 : Bytes → ℕ → Bytes → ℕ → Throws CoinbaseError Bytes
build_coinbase1 script_sig_prefix extranonce_total tag version =
    let scriptsig_length = length script_sig_prefix + extranonce_total + length tag in
    if ltb max_script_sig scriptsig_length
    then throw script_sig_too_long
    else ok (
        (((append_le32 [] version ++ (1 ∷ [])) ++ prevout_null) ++ encode_varint scriptsig_length)
        ++ script_sig_prefix)

as_coinbase_error : Throws SerializeError Bytes → Throws CoinbaseError Bytes
as_coinbase_error (ok bytes) = ok bytes
as_coinbase_error (throw e) = throw (bad_height e)

-- The overload that takes the height.
unfoldable pub build_coinbase1_at : ℤ → ℕ → Bytes → ℕ → Throws CoinbaseError Bytes
unfolding as_coinbase_error
build_coinbase1_at height extranonce_total tag version =
    bind (as_coinbase_error (serialize_height height))
      λ prefix. build_coinbase1 prefix extranonce_total tag version

-- `for (const auto& output : outputs) append_output(out, output);`
unfoldable pub append_outputs : Bytes → List CoinbaseOutput → Bytes
append_outputs out [] = out
append_outputs out (output ∷ outputs) = append_outputs (append_output out output) outputs

unfoldable pub build_coinbase2 : List CoinbaseOutput → List CoinbaseOutput → Bytes → ℕ → ℕ → Bytes
build_coinbase2 outputs required_outputs tag sequence lock_time =
    let out = append_le32 ([] ++ tag) sequence in
    let out' = out ++ encode_varint (length outputs + length required_outputs) in
    append_le32 (append_outputs (append_outputs out' outputs) required_outputs) lock_time

unfoldable pub legacy_to_witness : Bytes → Bytes → Throws CoinbaseError Bytes
legacy_to_witness legacy_coinbase witness_item =
    if ltb (length legacy_coinbase) 8
    then throw coinbase_too_short
    else if not (length witness_item == 32)
    then throw witness_item_not_32_bytes
    else let version = take 4 legacy_coinbase in
      let body = take (length legacy_coinbase - 8) (drop 4 legacy_coinbase) in
      let locktime = take 4 (drop (length legacy_coinbase - 4) legacy_coinbase) in
      ok (
        ((((version ++ (0 ∷ 1 ∷ [])) ++ body) ++ encode_varint 1)
          ++ (encode_varint (length witness_item) ++ witness_item))
        ++ locktime)
