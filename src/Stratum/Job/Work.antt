-- ===== src/Stratum/Job/Work.antt =====
-- stratum/job.cpp: the coinbase of a job for a payout script, the work made of it for the two kinds of
-- channels, and the block around a coinbase that solved the job.
use erikslund_solo_pool.Prelude.{
  ℕ, ◌+◌, ◌-◌, ◌%◌, ◌^◌, not, ◌&&◌, List, [], ◌∷◌, ◌++◌, Bytes, Option, none, some, length, ◌==◌,
  if◌then◌else◌, Throws, ok, throw, bind, same_bytes, Bool, false,
}
use erikslund_solo_pool.Prelude.Double.{Double}
use erikslund_solo_pool.Util.Hex.{from_hex, to_hex}
use erikslund_solo_pool.Util.Endian.{reversed}
use erikslund_solo_pool.Util.Varint.{encode_varint}
use erikslund_solo_pool.Util.Merkle.{Hash256, merkle_root_from_branch}
use erikslund_solo_pool.Util.Difficulty.{difficulty_from_target}
use erikslund_solo_pool.Bitcoin.Coinbase
use erikslund_solo_pool.Bitcoin.Coinbase.{CoinbaseError, CoinbaseOutput, legacy_to_witness}
use erikslund_solo_pool.Stratum.Job.{Job, JobError, prefix_not_filling, bad_coinbase}

pub record StandardWork : Type 0 where
  pub legacy_coinbase : Bytes
  pub merkle_root : Hash256

pub record ExtendedWork : Type 0 where
  pub coinbase_tx_prefix : Bytes
  pub coinbase_tx_suffix : Bytes
  pub merkle_path : List Hash256

module _ (F : Double) where
  unfoldable pub donation_amount : Job F.Value → ℕ
  donation_amount job =
      F.to_nat (F.div (F.mul (F.of_nat job.coinbase_value) job.donation_percent) (F.of_nat 100))

  unfoldable pub payout_outputs : Job F.Value → Bytes → List CoinbaseOutput
  payout_outputs job payout_script =
      if F.less F.zero_value job.donation_percent && not (length job.donation_script == 0)
      then record {
        value = (job.coinbase_value + 2 ^ 64 - donation_amount job) % 2 ^ 64;
        script = payout_script;
      }
        ∷ record { value = donation_amount job; script = job.donation_script }
        ∷ []
      else record { value = job.coinbase_value; script = payout_script } ∷ []

  unfoldable pub build_coinbase2 : Job F.Value → Bytes → Bytes
  build_coinbase2 job payout_script =
      Coinbase.build_coinbase2 (payout_outputs job payout_script) job.coinbase_required_outputs
        job.tag job.coinbase_sequence job.coinbase_lock_time

  unfoldable pub network_difficulty : Job F.Value → F.Value
  network_difficulty job = difficulty_from_target F job.network_target

  unfoldable pub build_extended_work : Job F.Value → Bytes → ExtendedWork
  build_extended_work job payout_script = record {
    coinbase_tx_prefix = job.coinbase1;
    coinbase_tx_suffix = build_coinbase2 job payout_script;
    merkle_path = job.merkle_branch;
  }

  module _ (sha256d sha256d64 : Bytes → Hash256) where
    -- An exception when the prefix does not fill the template's extranonce.
    unfoldable pub build_standard_work : Job F.Value → Bytes → Bytes → Throws JobError StandardWork
    build_standard_work job payout_script extranonce_prefix =
        if not (length extranonce_prefix == job.extranonce_size)
        then throw prefix_not_filling
        else let coinbase =
            (job.coinbase1 ++ extranonce_prefix) ++ build_coinbase2 job payout_script in
          ok record {
            legacy_coinbase = coinbase;
            merkle_root = merkle_root_from_branch sha256d64 (sha256d coinbase) job.merkle_branch;
          }

-- Malformed hexadecimal cannot be the parent.
unfoldable pub mines_on : {Value : Type 0} → Job Value → Bytes → Bool
mines_on job tip_display_hex = elim (from_hex tip_display_hex) [
  | ok bytes ↦ same_bytes (reversed bytes) job.prevhash_internal
  | throw _ ↦ false
]

block_coinbase : Option Bytes → Bytes → Throws CoinbaseError Bytes
block_coinbase none legacy_coinbase = ok legacy_coinbase
block_coinbase (some witness) legacy_coinbase = legacy_to_witness legacy_coinbase witness

as_job_error : Throws CoinbaseError Bytes → Throws JobError Bytes
as_job_error (ok a) = ok a
as_job_error (throw e) = throw (bad_coinbase e)

-- `txn_count_ + 1` is a sum of 32 bits.
unfoldable pub build_block_hex :
    {Value : Type 0} → Job Value → Bytes → Bytes → Throws JobError Bytes
unfolding block_coinbase as_job_error
build_block_hex job legacy_coinbase header =
    bind (as_job_error (block_coinbase job.coinbase_witness legacy_coinbase)) λ coinbase. ok (
      to_hex
        (((header ++ encode_varint ((job.txn_count + 1) % 2 ^ 32)) ++ coinbase) ++ job.txn_data))
