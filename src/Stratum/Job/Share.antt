-- ===== src/Stratum/Job/Share.antt =====
-- stratum/job.hpp and stratum/job.cpp: the validation of a share, of the first protocol
-- (`validate_share`) and of the two kinds of channels of the second. A 64-bit sum of seconds is far
-- from its bounds and is a sum of integers here.
use erikslund_solo_pool.Prelude.{
  ℕ, ◌+◌, ◌-◌, ◌*◌, ◌^◌, Bool, not, ◌&&◌, ◌||◌, ◌++◌, Bytes, Option, none, some, length, take,
  bit_and, bit_or, ltb, ◌==◌, if◌then◌else◌, Throws, ok, throw,
}
use erikslund_solo_pool.Prelude.Int.{ℤ, pos, negsuc, pos_part, neg_part, ◌-ℤ◌}
use erikslund_solo_pool.Prelude.Double.{Double}
use erikslund_solo_pool.Util.Endian.{write_le32}
use erikslund_solo_pool.Util.Hex.{try_from_hex, try_parse_hex_u32, to_hex_reversed}
use erikslund_solo_pool.Util.Uint256.{from_le_bytes, meets_target}
use erikslund_solo_pool.Util.Merkle.{Hash256, merkle_root_from_branch, zero_hash}
use erikslund_solo_pool.Util.Difficulty.{difficulty_from_target}
use erikslund_solo_pool.Stratum.Job.{Job}
use erikslund_solo_pool.Stratum.Job.Work.{ExtendedWork}

pub data ShareReject : Type 0 where
  no_reject invalid_extranonce2_size malformed_field ntime_out_of_range : ShareReject
  malformed_version_bits version_rolling_not_negotiated : ShareReject
  version_bits_outside_mask above_target : ShareReject

pub data RejectClass : Type 0 where
  stale duplicate malformed ntime_class version_class low_difficulty : RejectClass

unfoldable pub reject_class_of : ShareReject → RejectClass
reject_class_of ntime_out_of_range = ntime_class
reject_class_of malformed_version_bits = version_class
reject_class_of version_rolling_not_negotiated = version_class
reject_class_of version_bits_outside_mask = version_class
reject_class_of above_target = low_difficulty
reject_class_of no_reject = malformed
reject_class_of invalid_extranonce2_size = malformed
reject_class_of malformed_field = malformed

pub record ShareRejection (Value : Type 0) : Type 0 where
  pub reason : ShareReject
  pub difficulty : Value

pub record ShareResult (Value : Type 0) : Type 0 where
  pub difficulty : Value
  pub is_block : Bool
  pub header : Bytes
  pub legacy_coinbase : Bytes
  pub block_hash_chars : Bytes

pub record ShareInput : Type 0 where
  pub coinbase2 : Bytes
  pub extranonce1 : Bytes
  pub extranonce2_hex : Bytes
  pub ntime_hex : Bytes
  pub nonce_hex : Bytes
  pub share_target : Bytes
  pub version_bits_hex : Option Bytes
  pub version_mask : ℕ
  pub now_unix : ℤ

pub record StandardShareInput : Type 0 where
  pub legacy_coinbase : Bytes
  pub merkle_root : Hash256
  pub ntime : ℕ
  pub nonce : ℕ
  pub version : ℕ
  pub version_mask : ℕ
  pub share_target : Bytes
  pub now_unix : ℤ

pub record ExtendedShareInput : Type 0 where
  pub extranonce_prefix : Bytes
  pub extranonce : Bytes
  pub extranonce_size : ℕ
  pub ntime : ℕ
  pub nonce : ℕ
  pub version : ℕ
  pub version_mask : ℕ
  pub share_target : Bytes
  pub now_unix : ℤ

-- `~mask` of 32 bits.
abbrev pub complement : ℕ → ℕ
complement mask = 2 ^ 32 - 1 - mask

-- `ntime < ntime_min || ntime > ntime_max`: `kNtimeSlack` is 7200, `kNtimeSubmitMargin` 120.
unfoldable pub ntime_outside : {Value : Type 0} → Job Value → ℕ → ℤ → Bool
ntime_outside job ntime now_unix =
    let ntime_max = (now_unix -ℤ negsuc 7199) -ℤ pos 120 in
    ltb ntime job.curtime || ltb (pos_part ntime_max) (ntime + neg_part ntime_max)

-- The version of the header, from the version bits that a miner of the first protocol sends.
unfoldable pub rolled_version : ℕ → Option Bytes → ℕ → Throws ShareReject ℕ
rolled_version version none version_mask = ok version
rolled_version version (some version_bits_hex) version_mask =
    elim (try_parse_hex_u32 version_bits_hex) [
      | none ↦ throw malformed_version_bits
      | some rolled ↦
          if version_mask == 0
          then (if not (rolled == 0) then throw version_rolling_not_negotiated else ok version)
          else if not (bit_and rolled (complement version_mask) == 0)
          then throw version_bits_outside_mask
          else ok (bit_or (bit_and version (complement version_mask)) (bit_and rolled version_mask))
    ]

-- The fields that a share of the first protocol spells in hexadecimal: the extranonce, ntime, nonce.
unfoldable pub decoded : ShareInput → Option (Bytes × ℕ × ℕ)
decoded input = elim (try_from_hex input.extranonce2_hex) [
  | none ↦ none
  | some extranonce2 ↦ elim (try_parse_hex_u32 input.ntime_hex) [
    | none ↦ none
    | some ntime ↦ elim (try_parse_hex_u32 input.nonce_hex) [
      | none ↦ none
      | some nonce ↦ some (extranonce2, ntime, nonce)
    ]
  ]
]

-- The 80 bytes; the fields of the block header stand in this order, each at its offset.
unfoldable pub build_header : {Value : Type 0} → Job Value → Hash256 → ℕ → ℕ → ℕ → Bytes
build_header job merkle_root ntime nonce version =
    write_le32 version
    ++ (take 32 job.prevhash_internal
        ++ (take 32 merkle_root ++ (write_le32 ntime ++ (write_le32 job.bits ++ write_le32 nonce))))

-- `uint256::from_le_bytes`, which does not throw on the 32 bytes of a hash.
unfoldable pub hash_value : Hash256 → Bytes
hash_value hash = elim (from_le_bytes hash) [ ok value ↦ value | throw _ ↦ zero_hash ]

module _ (F : Double) (sha256d sha256d64 : Bytes → Hash256) where
  -- `std::expected<ShareResult, ShareRejection>`.
  abbrev pub Validated : Type 0
  Validated = Throws (ShareRejection F.Value) (ShareResult F.Value)

  abbrev pub rejected : ShareReject → Validated
  rejected reject = throw record { reason = reject; difficulty = F.zero_value }

  unfoldable pub validate_header : Job F.Value → Bytes → Hash256 → ℕ → ℕ → ℕ → Bytes → Validated
  validate_header job legacy_coinbase merkle_root ntime nonce version share_target =
      let header = build_header job merkle_root ntime nonce version in
      let block_hash = sha256d header in
      let value = hash_value block_hash in
      let difficulty = difficulty_from_target F value in
      let is_block = meets_target value job.network_target in
      if not is_block && not (meets_target value share_target)
      then throw record { reason = above_target; difficulty = difficulty }
      else ok record {
        difficulty = difficulty;
        is_block = is_block;
        header = header;
        legacy_coinbase = legacy_coinbase;
        block_hash_chars = to_hex_reversed block_hash;
      }

  -- The coinbase and its root, once the fields are checked.
  unfoldable pub validate_coinbase : Job F.Value → ShareInput → Bytes → ℕ → ℕ → ℕ → Validated
  validate_coinbase job input extranonce2 ntime nonce version =
      let coinbase = ((job.coinbase1 ++ input.extranonce1) ++ extranonce2) ++ input.coinbase2 in
      let root = merkle_root_from_branch sha256d64 (sha256d coinbase) job.merkle_branch in
      validate_header job coinbase root ntime nonce version input.share_target

  unfoldable pub validate_share : Job F.Value → ShareInput → Validated
  validate_share job input =
      if ltb (job.extranonce2_size * 2) (length input.extranonce2_hex)
      then rejected invalid_extranonce2_size
      else elim (decoded input) [
        | none ↦ rejected malformed_field
        | some (extranonce2, ntime, nonce) ↦
            if not (length extranonce2 == job.extranonce2_size)
            then rejected invalid_extranonce2_size
            else if ntime_outside job ntime input.now_unix
            then rejected ntime_out_of_range
            else elim (rolled_version job.version input.version_bits_hex input.version_mask) [
              | throw reject ↦ rejected reject
              | ok version ↦ validate_coinbase job input extranonce2 ntime nonce version
            ]
      ]

  unfoldable pub validate_standard_share : Job F.Value → StandardShareInput → Validated
  validate_standard_share job input =
      if ntime_outside job input.ntime input.now_unix
      then rejected ntime_out_of_range
      else if not (
          bit_and input.version (complement input.version_mask)
          == bit_and job.version (complement input.version_mask))
      then rejected version_bits_outside_mask
      else validate_header job input.legacy_coinbase input.merkle_root input.ntime input.nonce
          input.version input.share_target

  unfoldable pub validate_extended_share :
      Job F.Value → ExtendedWork → ExtendedShareInput → Validated
  validate_extended_share job work input =
      if not (length input.extranonce == input.extranonce_size)
        || ltb job.extranonce_size (length input.extranonce_prefix)
        || not (input.extranonce_size == job.extranonce_size - length input.extranonce_prefix)
      then rejected invalid_extranonce2_size
      else let coinbase =
          ((work.coinbase_tx_prefix ++ input.extranonce_prefix) ++ input.extranonce)
          ++ work.coinbase_tx_suffix in
        validate_standard_share job record {
          legacy_coinbase = coinbase;
          merkle_root = merkle_root_from_branch sha256d64 (sha256d coinbase) work.merkle_path;
          ntime = input.ntime;
          nonce = input.nonce;
          version = input.version;
          version_mask = input.version_mask;
          share_target = input.share_target;
          now_unix = input.now_unix;
        }
