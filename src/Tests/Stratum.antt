-- ===== src/Tests/Stratum.antt =====
-- stratum/: a job, a share on it and the payout of its reward. The doubles are numbers and the hash is
-- the first byte, which is enough for hypotheses that hold.
use erikslund_solo_pool.Prelude.{
  ◌⊎◌, ◌&&◌, ℕ, false, zero, suc, ◌+◌, ◌-◌, ◌*◌, ◌/◌, ◌%◌, ◌^◌, ◌≤◌, ◌≡◌, refl, true, [], ◌∷◌,
  Bytes, IsBytes, none, some, replicate, get_or, bit_and, ltb, ◌==◌, ok, arith,
}
use erikslund_solo_pool.Prelude.Int.{pos}
use erikslund_solo_pool.Prelude.Double.{Double}
use erikslund_solo_pool.Util.Hex.{try_from_hex, try_parse_hex_u32, hex_byte, hex_table}
use erikslund_solo_pool.Util.Uint256.Order.{uint256_value, low_value}
use erikslund_solo_pool.Util.Merkle.{Hash256}
use erikslund_solo_pool.Stratum.Vardiff.{difficulty_cap, vardiff_next, clamp_suggested_difficulty}
use erikslund_solo_pool.Stratum.Vardiff.Range.{
  IsDouble, vardiff_next_range, clamp_suggested_difficulty_range,
}
use erikslund_solo_pool.Stratum.Job.{Job}
use erikslund_solo_pool.Stratum.Job.Work.{
  StandardWork, donation_amount, payout_outputs, build_standard_work, build_extended_work,
}
use erikslund_solo_pool.Stratum.Job.Share.{
  ShareResult, ShareInput, ExtendedShareInput, complement, decoded, rolled_version, validate_share,
  validate_standard_share, validate_extended_share,
}
use erikslund_solo_pool.Stratum.Job.Payout.{total, total-payout_outputs}
use erikslund_solo_pool.Stratum.Job.Accept.{
  header_of, IsHash, IsAccepted, validate_share-IsAccepted, validate_share_accepts,
}
use erikslund_solo_pool.Stratum.Job.Agree.{
  rolled_version-mask, rolled_version-rolled, standard_input, extended-standard, extended_input,
  extended_work, validate_share-extended,
}

abbrev pub numbers : Double
numbers = record {
  Value = ℕ;
  zero_value = 0;
  two = 2;
  sixty = 60;
  infinity = 2 ^ 64;
  of_nat = λ n. n;
  ldexp = λ n e. n;
  to_nat = λ n. n;
  add = λ a b. a + b;
  sub = λ a b. a - b;
  mul = λ a b. a * b;
  div = λ a b. a / b;
  exp = λ a. 2 ^ a;
  less = ltb;
  same = λ a b. a == b;
  is_finite = λ a. ltb a (2 ^ 64);
}

abbrev pub first_byte : Bytes → Hash256
first_byte bytes = get_or bytes 0 0 % 256 ∷ replicate 31 0

pub zeros-IsBytes : (n : ℕ) → IsBytes (replicate n 0)
zeros-IsBytes zero = tt
zeros-IsBytes (suc n) = (omega arith, zeros-IsBytes n)

pub first_byte-IsHash : IsHash first_byte
first_byte-IsHash = record {
  length-hash = λ bytes. refl;
  hash-IsBytes = λ bytes. (omega arith, zeros-IsBytes 31);
}

abbrev target : Bytes
target = 0 ∷ 1 ∷ replicate 30 0

target-IsBytes : IsBytes target
target-IsBytes = (omega arith, (omega arith, zeros-IsBytes 30))

-- Every hash is below the target.
below : (bytes : Bytes) → uint256_value (first_byte bytes) ≤ uint256_value target
unfolding uint256_value low_value
below bytes = omega arith

abbrev pub job : Job ℕ
job = record {
  job_id = b'1' ∷ [];
  clean = true;
  height = pos 840000;
  version = 0x20000000;
  curtime = 1700000000;
  bits = 0x1d00ffff;
  coinbase_value = 312500000;
  network_target = replicate 32 0;
  prevhash_internal = replicate 32 1;
  prevhash_stratum = [];
  coinbase_sequence = 0xffffffff;
  coinbase_lock_time = 0;
  coinbase_witness = none;
  coinbase_required_outputs = [];
  tag = b'p' ∷ [];
  extranonce_size = 3;
  extranonce2_size = 2;
  donation_script = 0x51 ∷ [];
  donation_percent = 2;
  txn_count = 0;
  txn_data = [];
  merkle_branch = replicate 32 9 ∷ [];
  merkle_branch_hex = [];
  coinbase1 = 1 ∷ 0 ∷ 0 ∷ 0 ∷ [];
  coinbase1_hex = [];
  version_hex = [];
  nbits_hex = [];
  ntime_hex = [];
  work_signature = [];
  publication_sequence = 0;
}

donated : donation_amount numbers job ≤ 312500000
unfolding donation_amount
donated = omega arith

total-payout_outputs_example : total (payout_outputs numbers job (0x52 ∷ [])) ≡ 312500000
total-payout_outputs_example = total-payout_outputs numbers job (0x52 ∷ []) (omega arith) donated

abbrev share : ShareInput
share = record {
  coinbase2 = 5 ∷ 6 ∷ [];
  extranonce1 = 7 ∷ [];
  extranonce2_hex = b'0' ∷ b'1' ∷ b'F' ∷ b'f' ∷ [];
  ntime_hex = b'6' ∷ b'5' ∷ b'5' ∷ b'3' ∷ b'f' ∷ b'1' ∷ b'0' ∷ b'1' ∷ [];
  nonce_hex = b'7' ∷ [];
  share_target = target;
  version_bits_hex = some (b'0' ∷ b'0' ∷ b'0' ∷ b'0' ∷ b'2' ∷ b'0' ∷ b'0' ∷ b'0' ∷ []);
  version_mask = 0x1fffe000;
  now_unix = pos 1700000100;
}

abbrev nonces : Bytes
nonces = 1 ∷ 255 ∷ []

extranonce2_read : try_from_hex share.extranonce2_hex ≡ some nonces
unfolding try_from_hex hex_byte hex_table
extranonce2_read = refl

ntime_read : try_parse_hex_u32 share.ntime_hex ≡ some 1700000001
unfolding try_parse_hex_u32 hex_table
ntime_read = refl

nonce_read : try_parse_hex_u32 share.nonce_hex ≡ some 7
unfolding try_parse_hex_u32 hex_table
nonce_read = refl

version_read : rolled_version job.version share.version_bits_hex share.version_mask ≡ ok 0x20002000
unfolding rolled_version try_parse_hex_u32 hex_table
version_read = refl

abbrev share_header : Bytes
share_header = header_of numbers first_byte first_byte job share nonces 1700000001 7 0x20002000

share_accepted :
    (result : ShareResult ℕ) × (validate_share numbers first_byte first_byte job share ≡ ok result)
share_accepted =
    validate_share_accepts numbers first_byte first_byte job first_byte-IsHash (zeros-IsBytes 32)
      share nonces 1700000001 7 0x20002000 target-IsBytes extranonce2_read ntime_read nonce_read
      version_read refl (omega arith) (omega arith) (below share_header)

validate_share_accepts_example :
    (result : ShareResult ℕ) × (validate_share numbers first_byte first_byte job share ≡ ok result)
validate_share_accepts_example =
    validate_share_accepts numbers first_byte first_byte job first_byte-IsHash (zeros-IsBytes 32)
      share nonces 1700000001 7 0x20002000 target-IsBytes extranonce2_read ntime_read nonce_read
      version_read refl (omega arith) (omega arith) (below share_header)

abbrev accepted : ShareResult ℕ
accepted = share_accepted.0

validate_share-IsAccepted_example : IsAccepted numbers first_byte first_byte job share accepted
validate_share-IsAccepted_example =
    validate_share-IsAccepted numbers first_byte first_byte job first_byte-IsHash (zeros-IsBytes 32)
      share accepted target-IsBytes share_accepted.1

rolled_version-mask_example :
    bit_and 0x20002000 (complement 0x1fffe000) ≡ bit_and 0x20000000 (complement 0x1fffe000)
rolled_version-mask_example =
    rolled_version-mask 0x20000000 0x1fffe000 share.version_bits_hex 0x20002000 (omega arith)
      version_read

abbrev version_bits_text : Bytes
version_bits_text = b'0' ∷ b'0' ∷ b'0' ∷ b'0' ∷ b'2' ∷ b'0' ∷ b'0' ∷ b'0' ∷ []

version_bits_read : try_parse_hex_u32 version_bits_text ≡ some 0x2000
unfolding try_parse_hex_u32 hex_table
version_bits_read = refl

rolled_version-rolled_example : bit_and 0x20002000 0x1fffe000 ≡ bit_and 0x2000 0x1fffe000
rolled_version-rolled_example =
    rolled_version-rolled 0x20000000 0x1fffe000 version_bits_text 0x2000 0x20002000 (omega arith)
      (omega arith) version_bits_read version_read

abbrev extended_share : ExtendedShareInput
extended_share =
    extended_input numbers first_byte first_byte job share nonces 1700000001 7 0x20002000

fields_read : decoded share ≡ some (nonces, 1700000001, 7)
unfolding decoded try_from_hex try_parse_hex_u32 hex_byte hex_table
fields_read = refl

validate_share-extended_example :
    validate_share numbers first_byte first_byte job share
    ≡ validate_extended_share numbers first_byte first_byte job
        (extended_work numbers first_byte first_byte job share)
        extended_share
validate_share-extended_example =
    validate_share-extended numbers first_byte first_byte job share nonces 1700000001 7 0x20002000
      fields_read refl refl (omega arith) version_read

abbrev extended : ExtendedShareInput
extended = record {
  extranonce_prefix = 7 ∷ [];
  extranonce = nonces;
  extranonce_size = 2;
  ntime = 1700000001;
  nonce = 7;
  version = 0x20002000;
  version_mask = 0x1fffe000;
  share_target = target;
  now_unix = pos 1700000100;
}

standard_made :
    (work : StandardWork) × (build_standard_work numbers first_byte first_byte job
        (0x52 ∷ [])
        (7 ∷ nonces)
      ≡ ok work)
unfolding build_standard_work
standard_made = (_, refl)

extended-standard_example :
    validate_extended_share numbers first_byte first_byte job
      (build_extended_work numbers job (0x52 ∷ []))
      extended
    ≡ validate_standard_share numbers first_byte first_byte job
        (standard_input numbers first_byte first_byte job standard_made.0 extended)
extended-standard_example =
    extended-standard numbers first_byte first_byte job (0x52 ∷ []) extended standard_made.0 refl
      standard_made.1

pub numbers-IsDouble : IsDouble numbers
numbers-IsDouble = record {
  irreflexive = λ a. ground arith;
  asymmetric = λ a b h. ground arith;
  doubled = λ a b p h. ground arith;
  halved = λ a b p h. ground arith;
}

cap_positive : ltb 0 (difficulty_cap numbers 64) ≡ true
unfolding difficulty_cap
cap_positive = refl

cap_above : ltb (difficulty_cap numbers 64) 1 ≡ false
unfolding difficulty_cap
cap_above = refl

vardiff_next_range_example :
    (ltb (vardiff_next numbers 8 100 10 1 64) 1 ≡ false)
    × (ltb (difficulty_cap numbers 64) (vardiff_next numbers 8 100 10 1 64) ≡ false)
vardiff_next_range_example =
    vardiff_next_range numbers numbers-IsDouble 8 100 10 1 64 refl refl cap_positive cap_above

suggested_taken : clamp_suggested_difficulty numbers 100 1 64 ≡ some 64
unfolding clamp_suggested_difficulty
suggested_taken = refl

clamp_suggested_difficulty_range_example :
    (ltb 64 1 ≡ false)
    × ((ltb 0 64 && ltb 64 64) ≡ false)
    × (◌≡◌ {A = ℕ} 64 100
        ⊎ (◌≡◌ {A = ℕ} 64 1 × (ltb 100 1 ≡ true))
        ⊎ (◌≡◌ {A = ℕ} 64 64 × ((ltb 0 64 && ltb 64 100) ≡ true)))
clamp_suggested_difficulty_range_example =
    clamp_suggested_difficulty_range numbers numbers-IsDouble 100 1 64 64 refl suggested_taken
