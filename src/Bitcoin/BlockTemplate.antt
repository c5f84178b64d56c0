-- ===== src/Bitcoin/BlockTemplate.antt =====
-- bitcoin/block_template.hpp: what a job takes from a template of the node.
use erikslund_solo_pool.Prelude.{ℕ, List, Bytes, Option}
use erikslund_solo_pool.Prelude.Int.{ℤ}
use erikslund_solo_pool.Util.Merkle.{Hash256}
use erikslund_solo_pool.Bitcoin.Coinbase.{CoinbaseOutput}

pub record BlockTemplate : Type 0 where
  pub height : ℤ
  pub version : ℕ
  pub curtime : ℕ
  pub bits : ℕ
  pub bits_hex : Bytes
  pub coinbase_value : ℕ
  pub previousblockhash : Bytes
  pub coinbase_script_sig_prefix : Bytes
  pub coinbase_version : Option ℕ
  pub coinbase_sequence : ℕ
  pub coinbase_lock_time : ℕ
  pub coinbase_witness : Option Bytes
  pub coinbase_required_outputs : List CoinbaseOutput
  pub txn_count : ℕ
  pub txn_data : Bytes
  pub merkle_branch_internal : List Hash256
