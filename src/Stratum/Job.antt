-- ===== src/Stratum/Job.antt =====
-- stratum/job.hpp and stratum/job.cpp: a block template as work. Here are the job and its construction;
-- Job/Work.antt has the work and the blocks made from it, Job/Share.antt the validation of shares. The double SHA-256 is
-- the code of third_party/, a parameter. The pool stamps `publication_sequence` when it publishes.
pub mod Work
pub mod Share
pub mod Payout
pub mod Checks
pub mod Accept
pub mod Agree
pub mod Labels
use erikslund_solo_pool.Prelude.{
  ℕ, zero, suc, ◌+◌, ◌-◌, ◌/◌, ◌%◌, ◌^◌, Bool, true, false, not, ◌&&◌, List, [], ◌∷◌, ◌++◌, map,
  Bytes, Option, none, some, length, get_or, ltb, ◌==◌, if◌then◌else◌, Throws, ok, throw, bind,
}
use erikslund_solo_pool.Prelude.Int.{ℤ}
use erikslund_solo_pool.Prelude.Double.{Double}
use erikslund_solo_pool.Util.Endian.{reversed}
use erikslund_solo_pool.Util.Hex.{HexError, from_hex, to_hex}
use erikslund_solo_pool.Util.Hex.Words.{format_08x}
use erikslund_solo_pool.Util.Varint.{encode_varint}
use erikslund_solo_pool.Util.Merkle.{Hash256, merkle_root_from_branch}
use erikslund_solo_pool.Util.Difficulty.{target_from_compact, difficulty_from_target}
use erikslund_solo_pool.Bitcoin.Coinbase.{
  CoinbaseError, CoinbaseOutput, build_coinbase1, build_coinbase2, legacy_to_witness,
}
use erikslund_solo_pool.Bitcoin.BlockTemplate.{BlockTemplate}

-- What the constructor and the builders throw.
pub data JobError : Type 0 where
  prevhash_not_32_bytes empty_script_sig_prefix prefix_not_filling : JobError
  bad_hex : HexError → JobError
  bad_coinbase : CoinbaseError → JobError

as_hex_error {ℓ} : {A : Type ℓ} → Throws HexError A → Throws JobError A
as_hex_error (ok a) = ok a
as_hex_error (throw e) = throw (bad_hex e)

as_coinbase_error {ℓ} : {A : Type ℓ} → Throws CoinbaseError A → Throws JobError A
as_coinbase_error (ok a) = ok a
as_coinbase_error (throw e) = throw (bad_coinbase e)

-- Each word of four bytes the other way round.
unfoldable pub swap_words : Bytes → Bytes
swap_words (a ∷ (b ∷ (c ∷ (d ∷ rest)))) = d ∷ c ∷ b ∷ a ∷ swap_words rest
swap_words rest = []

unfoldable pub prevhash_to_stratum : Bytes → Throws JobError Bytes
unfolding as_hex_error
prevhash_to_stratum display_hex = bind (as_hex_error (from_hex display_hex)) λ bytes.
    let internal = reversed bytes in
    if not (length internal == 32)
    then throw prevhash_not_32_bytes
    else ok (to_hex (swap_words internal))

-- `std::to_string`: a number of 64 bits has at most 20 digits.
to_string_loop : ℕ → ℕ → Bytes
to_string_loop zero n = []
to_string_loop (suc fuel) n =
    let rest = to_string_loop fuel (n / 10) in
    if n / 10 == 0 then (b'0' + n % 10) ∷ [] else rest ++ ((b'0' + n % 10) ∷ [])

unfoldable pub to_string : ℕ → Bytes
unfolding to_string_loop
to_string n = to_string_loop 20 n

pub record Job (Value : Type 0) : Type 0 where
  pub job_id : Bytes
  pub clean : Bool
  pub height : ℤ
  pub version : ℕ
  pub curtime : ℕ
  pub bits : ℕ
  pub coinbase_value : ℕ
  pub network_target : Bytes
  pub prevhash_internal : Bytes
  pub prevhash_stratum : Bytes
  pub coinbase_sequence : ℕ
  pub coinbase_lock_time : ℕ
  pub coinbase_witness : Option Bytes
  pub coinbase_required_outputs : List CoinbaseOutput
  pub tag : Bytes
  pub extranonce_size : ℕ
  pub extranonce2_size : ℕ
  pub donation_script : Bytes
  pub donation_percent : Value
  pub txn_count : ℕ
  pub txn_data : Bytes
  pub merkle_branch : List Hash256
  pub merkle_branch_hex : List Bytes
  pub coinbase1 : Bytes
  pub coinbase1_hex : Bytes
  pub version_hex : Bytes
  pub nbits_hex : Bytes
  pub ntime_hex : Bytes
  pub work_signature : Bytes
  pub publication_sequence : ℕ

witness_part : Option Bytes → Bytes
witness_part none = []
witness_part (some witness) = b'|' ∷ to_hex witness

outputs_part : List CoinbaseOutput → Bytes
outputs_part [] = []
outputs_part (output ∷ outputs) =
    (b'|' ∷ to_string output.value) ++ ((b':' ∷ to_hex output.script) ++ outputs_part outputs)

branch_part : List Bytes → Bytes
branch_part [] = []
branch_part (node ∷ branch) = (b'|' ∷ node) ++ branch_part branch

-- The parts in the order in which the constructor appends them.
unfoldable pub signature_of : BlockTemplate → Bytes → Bytes → Bytes → List Bytes → Bytes
unfolding witness_part outputs_part branch_part
signature_of block_template prevhash coinbase1_hex tag branch_hex =
    prevhash
    ++ ((b'|' ∷ format_08x block_template.version)
        ++ ((b'|' ∷ block_template.bits_hex)
            ++ ((b'|' ∷ format_08x block_template.curtime)
                ++ ((b'|' ∷ coinbase1_hex)
                    ++ ((b'|' ∷ to_hex tag)
                        ++ ((b'|' ∷ to_string block_template.coinbase_value)
                            ++ ((b'|' ∷ to_string block_template.coinbase_sequence)
                                ++ ((b'|' ∷ to_string block_template.coinbase_lock_time)
                                    ++ (witness_part block_template.coinbase_witness
                                        ++ (outputs_part block_template.coinbase_required_outputs
                                            ++ branch_part branch_hex))))))))))

value_or : Option ℕ → ℕ → ℕ
value_or none default = default
value_or (some n) default = n

unfoldable pub new_job :
    {Value : Type 0}
    → Bytes
    → BlockTemplate
    → Bytes
    → ℕ
    → ℕ
    → ℕ
    → Bool
    → Bytes
    → Value
    → Throws JobError (Job Value)
unfolding as_hex_error as_coinbase_error value_or
new_job job_id block_template tag extranonce1_size extranonce2_size coinbase_version clean
      donation_script donation_percent =
    bind (as_hex_error (from_hex block_template.previousblockhash)) λ prevhash.
      bind (prevhash_to_stratum block_template.previousblockhash) λ prevhash_stratum.
        let branch_hex = map to_hex block_template.merkle_branch_internal in
        if length block_template.coinbase_script_sig_prefix == 0
        then throw empty_script_sig_prefix
        else bind
            (as_coinbase_error (
              build_coinbase1 block_template.coinbase_script_sig_prefix
                (extranonce1_size + extranonce2_size) tag
                (value_or block_template.coinbase_version coinbase_version)))
            λ coinbase1.
              let coinbase1_hex = to_hex coinbase1 in
              ok record {
                job_id = job_id;
                clean = clean;
                height = block_template.height;
                version = block_template.version;
                curtime = block_template.curtime;
                bits = block_template.bits;
                coinbase_value = block_template.coinbase_value;
                network_target = target_from_compact block_template.bits;
                prevhash_internal = reversed prevhash;
                prevhash_stratum = prevhash_stratum;
                coinbase_sequence = block_template.coinbase_sequence;
                coinbase_lock_time = block_template.coinbase_lock_time;
                coinbase_witness = block_template.coinbase_witness;
                coinbase_required_outputs = block_template.coinbase_required_outputs;
                tag = tag;
                extranonce_size = extranonce1_size + extranonce2_size;
                extranonce2_size = extranonce2_size;
                donation_script = donation_script;
                donation_percent = donation_percent;
                txn_count = block_template.txn_count;
                txn_data = block_template.txn_data;
                merkle_branch = block_template.merkle_branch_internal;
                merkle_branch_hex = branch_hex;
                coinbase1 = coinbase1;
                coinbase1_hex = coinbase1_hex;
                version_hex = format_08x block_template.version;
                nbits_hex = block_template.bits_hex;
                ntime_hex = format_08x block_template.curtime;
                work_signature =
                    signature_of block_template prevhash_stratum coinbase1_hex tag branch_hex;
                publication_sequence = 0;
              }

-- `set_publication_sequence`.
unfoldable pub set_publication_sequence : {Value : Type 0} → Job Value → ℕ → Job Value
set_publication_sequence job sequence = record job { publication_sequence = sequence }
