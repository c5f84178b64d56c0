-- ===== src/Stratum/Job/Accept.antt =====
-- stratum/job.cpp: what a share that `validate_share` accepts is, and which shares it accepts.
use erikslund_solo_pool.Prelude.{
  ℕ, ◌+◌, ◌*◌, ◌≤◌, ◌≡◌, ◌↔◌, ◌⊎◌, refl, sym, true, false, ◌++◌, Bytes, IsBytes, some, length, ltb,
  ◌==◌, ok, ==_iff, le→ltb, Bool-cases, Option-cases, Throws-cases, inl, inr, arith,
}
use erikslund_solo_pool.Prelude.Int.{pos_part, neg_part}
use erikslund_solo_pool.Prelude.Double.{Double}
use erikslund_solo_pool.Util.Hex.{try_from_hex, try_parse_hex_u32, to_hex_reversed}
use erikslund_solo_pool.Util.Uint256.{meets_target}
use erikslund_solo_pool.Util.Uint256.Order.{uint256_value, meets_target_iff}
use erikslund_solo_pool.Util.Merkle.{Hash256, merkle_root_from_branch}
use erikslund_solo_pool.Util.Difficulty.{difficulty_from_target}
use erikslund_solo_pool.Stratum.Job.{Job}
use erikslund_solo_pool.Stratum.Job.Share.{
  ShareResult, ShareInput, decoded, ntime_outside, rolled_version, hash_value, build_header,
  validate_header, validate_coinbase, validate_share,
}
use erikslund_solo_pool.Stratum.Job.Checks.{
  hash_value-id, not_outside, inside, decoded-some, throw-ok, length_text, some-decoded,
  network_or_share, takes,
}

-- A hash function of 256 bits: what the code relies on of the one in third_party/.
pub record IsHash (hash : Bytes → Hash256) : Type 0 where
  pub length-hash : (bytes : Bytes) → length (hash bytes) ≡ 32
  pub hash-IsBytes : (bytes : Bytes) → IsBytes (hash bytes)

module _ (F : Double) (sha256d sha256d64 : Bytes → Hash256) where
  module _ (job : Job F.Value) where
    -- What the header of an accepted share is, and its hash.
    pub record IsSolved (coinbase root share_target : Bytes) (ntime nonce version : ℕ)
        (result : ShareResult F.Value) : Type 0 where
      pub has_coinbase : result.legacy_coinbase ≡ coinbase
      pub has_header : result.header ≡ build_header job root ntime nonce version
      pub has_hash : result.block_hash_chars ≡ to_hex_reversed (sha256d result.header)
      pub has_difficulty : result.difficulty ≡ difficulty_from_target F (sha256d result.header)
      pub is_block_iff :
          (result.is_block ≡ true)
          ↔ (uint256_value (sha256d result.header) ≤ uint256_value job.network_target)
      pub has_work :
          (uint256_value (sha256d result.header) ≤ uint256_value share_target)
          ⊎ (result.is_block ≡ true)

    -- The coinbase around the extranonces.
    unfoldable pub coinbase_of : ShareInput → Bytes → Bytes
    coinbase_of input extranonce2 =
        ((job.coinbase1 ++ input.extranonce1) ++ extranonce2) ++ input.coinbase2

    -- The header of a share.
    pub header_of : ShareInput → Bytes → ℕ → ℕ → ℕ → Bytes
    unfolding coinbase_of
    header_of input extranonce2 ntime nonce version =
        build_header job
          (merkle_root_from_branch sha256d64 (sha256d (coinbase_of input extranonce2))
            job.merkle_branch)
          ntime nonce version

    -- The fields of the input that an accepted share was read from, and what it came to.
    pub record IsAccepted (input : ShareInput) (result : ShareResult F.Value) : Type 0 where
      pub extranonce2 : Bytes
      pub ntime : ℕ
      pub nonce : ℕ
      pub version : ℕ
      pub reads_extranonce2 : try_from_hex input.extranonce2_hex ≡ some extranonce2
      pub reads_ntime : try_parse_hex_u32 input.ntime_hex ≡ some ntime
      pub reads_nonce : try_parse_hex_u32 input.nonce_hex ≡ some nonce
      pub reads_version :
          rolled_version job.version input.version_bits_hex input.version_mask ≡ ok version
      pub fills : length extranonce2 ≡ job.extranonce2_size
      pub not_early : job.curtime ≤ ntime
      pub not_late : ntime + neg_part input.now_unix ≤ pos_part input.now_unix + 7080
      pub is_solved :
          IsSolved
            (coinbase_of input extranonce2)
            (merkle_root_from_branch sha256d64
              (sha256d (coinbase_of input extranonce2))
              job.merkle_branch)
            input.share_target
            ntime
            nonce
            version
            result

    solved : Bytes → Hash256 → ℕ → ℕ → ℕ → ShareResult F.Value
    solved coinbase root ntime nonce version =
        let header = build_header job root ntime nonce version in
        let value = hash_value (sha256d header) in
        record {
          difficulty = difficulty_from_target F value;
          is_block = meets_target value job.network_target;
          header = header;
          legacy_coinbase = coinbase;
          block_hash_chars = to_hex_reversed (sha256d header);
        }

    module _ (hash : IsHash sha256d) (network : IsBytes job.network_target) where
      value_of_header : (header : Bytes) → hash_value (sha256d header) ≡ sha256d header
      value_of_header header = hash_value-id (sha256d header) (hash.length-hash header)

      validate_header_ok :
          (coinbase root share_target : Bytes) (ntime nonce version : ℕ)
          (result : ShareResult F.Value)
          → validate_header F sha256d sha256d64 job coinbase root ntime nonce version share_target
            ≡ ok result
          → ((meets_target (sha256d (build_header job root ntime nonce version)) job.network_target
                ≡ true)
              ⊎ (meets_target (sha256d (build_header job root ntime nonce version)) share_target
                  ≡ true))
            × (solved coinbase root ntime nonce version ≡ result)
      unfolding validate_header solved
      validate_header_ok coinbase root share_target ntime nonce version result h =
          let header = build_header job root ntime nonce version in
          let value = hash_value (sha256d header) in
          let (met, same) =
            network_or_share _ _ (meets_target value job.network_target)
              (meets_target value share_target) h in
          (rw (value_of_header header) at met, same)

      solved-IsSolved :
          (coinbase root share_target : Bytes) (ntime nonce version : ℕ)
          → IsBytes share_target
          → ((meets_target (sha256d (build_header job root ntime nonce version)) job.network_target
                ≡ true)
              ⊎ (meets_target (sha256d (build_header job root ntime nonce version)) share_target
                  ≡ true))
          → IsSolved coinbase root share_target ntime nonce version
              (solved coinbase root ntime nonce version)
      unfolding solved
      solved-IsSolved coinbase root share_target ntime nonce version bytes met =
          let header = build_header job root ntime nonce version in
          let hashed = hash.hash-IsBytes header in
          rw (value_of_header header) record {
            has_coinbase = refl;
            has_header = refl;
            has_hash = refl;
            has_difficulty = refl;
            is_block_iff = meets_target_iff (sha256d header) job.network_target hashed network;
            has_work = elim met [
              | inl block ↦ inr block
              | inr share ↦
                  inl ((meets_target_iff (sha256d header) share_target hashed bytes).0 share)
            ];
          }

      accepted :
          (input : ShareInput) (result : ShareResult F.Value)
          → IsBytes input.share_target
          → (extranonce2 : Bytes) (ntime nonce version : ℕ)
          → decoded input ≡ some (extranonce2, ntime, nonce)
          → (length extranonce2 == job.extranonce2_size) ≡ true
          → ntime_outside job ntime input.now_unix ≡ false
          → rolled_version job.version input.version_bits_hex input.version_mask ≡ ok version
          → validate_coinbase F sha256d sha256d64 job input extranonce2 ntime nonce version
            ≡ ok result
          → IsAccepted input result
      unfolding validate_coinbase coinbase_of
      accepted input result bytes extranonce2 ntime nonce version read full timely rolled h =
          let coinbase = coinbase_of input extranonce2 in
          let root = merkle_root_from_branch sha256d64 (sha256d coinbase) job.merkle_branch in
          let (extranonce2_read, ntime_read, nonce_read) =
            decoded-some input extranonce2 ntime nonce read in
          let (not_early, not_late) = not_outside job ntime input.now_unix timely in
          let (met, same) =
            validate_header_ok coinbase root input.share_target ntime nonce version result h in
          record {
            extranonce2 = extranonce2;
            ntime = ntime;
            nonce = nonce;
            version = version;
            reads_extranonce2 = extranonce2_read;
            reads_ntime = ntime_read;
            reads_nonce = nonce_read;
            reads_version = rolled;
            fills = (==_iff _ _).0 full;
            not_early = not_early;
            not_late = not_late;
            is_solved =
                rw (sym same)
                  (solved-IsSolved coinbase root input.share_target ntime nonce version bytes met);
          }

      -- When the hash gives 32 bytes and the targets are of bytes: every share that
      -- `validate_share` accepts reads, fills the extranonce, has an ntime from the job's curtime
      -- to 7080 seconds from now and a version that `rolled_version` gives, and the header that
      -- the job makes of its fields hashes to at most the share's target or is a block; it is a
      -- block exactly when that hash is at most the network target.
      pub validate_share-IsAccepted :
          (input : ShareInput) (result : ShareResult F.Value)
          → IsBytes input.share_target
          → validate_share F sha256d sha256d64 job input ≡ ok result
          → IsAccepted input result
      unfolding validate_share validate_coinbase coinbase_of
      validate_share-IsAccepted input result bytes h =
          elim (Bool-cases (ltb (job.extranonce2_size * 2) (length input.extranonce2_hex))) [
            | inl long ↦ absurd (throw-ok (rw long at h))
            | inr short ↦ elim (Option-cases (decoded input)) [
              | inl bad ↦ absurd (throw-ok (rw (short, bad) at h))
              | inr ((extranonce2, ntime, nonce), read) ↦
                  elim (Bool-cases (length extranonce2 == job.extranonce2_size)) [
                    | inr other ↦ absurd (throw-ok (rw (short, read, other) at h))
                    | inl full ↦ elim (Bool-cases (ntime_outside job ntime input.now_unix)) [
                      | inl outside ↦ absurd (throw-ok (rw (short, read, full, outside) at h))
                      | inr timely ↦
                          elim (Throws-cases (
                            rolled_version job.version input.version_bits_hex input.version_mask)) [
                              | inr (e, refused) ↦
                                  absurd (throw-ok (rw (short, read, full, timely, refused) at h))
                              | inl (version, rolled) ↦
                                  accepted input result bytes extranonce2 ntime nonce version read
                                    full timely rolled (rw (short, read, full, timely, rolled) at h)
                            ]
                    ]
                  ]
            ]
          ]

      -- When the hash gives 32 bytes and the targets are of bytes: a share whose fields read, that
      -- fills the extranonce, has an ntime from the job's curtime to 7080 seconds from now and a
      -- version that `rolled_version` gives, and whose header hashes to at most the share's target
      -- is accepted.
      pub validate_share_accepts :
          (input : ShareInput) (extranonce2 : Bytes) (ntime nonce version : ℕ)
          → IsBytes input.share_target
          → try_from_hex input.extranonce2_hex ≡ some extranonce2
          → try_parse_hex_u32 input.ntime_hex ≡ some ntime
          → try_parse_hex_u32 input.nonce_hex ≡ some nonce
          → rolled_version job.version input.version_bits_hex input.version_mask ≡ ok version
          → length extranonce2 ≡ job.extranonce2_size
          → job.curtime ≤ ntime
          → ntime + neg_part input.now_unix ≤ pos_part input.now_unix + 7080
          → uint256_value (sha256d (header_of input extranonce2 ntime nonce version))
            ≤ uint256_value input.share_target
          → (result : ShareResult F.Value) × (validate_share F sha256d sha256d64 job input
              ≡ ok result)
      unfolding validate_share validate_coinbase validate_header coinbase_of header_of solved
      validate_share_accepts input extranonce2 ntime nonce version bytes text ntime_text nonce_text
            rolled full early late work =
          let header = header_of input extranonce2 ntime nonce version in
          let short =
            le→ltb (job.extranonce2_size * 2) (length input.extranonce2_hex)
              (omega (arith, length_text input.extranonce2_hex extranonce2 text)) in
          let read = some-decoded input extranonce2 ntime nonce text ntime_text nonce_text in
          let fits = (==_iff (length extranonce2) job.extranonce2_size).1 full in
          let timely = inside job ntime input.now_unix early late in
          let met : meets_target (hash_value (sha256d header)) input.share_target ≡ true =
            rw (value_of_header header) (
              (meets_target_iff (sha256d header) input.share_target (hash.hash-IsBytes header)
                  bytes).1
                work) in
          let coinbase = coinbase_of input extranonce2 in
          let root = merkle_root_from_branch sha256d64 (sha256d coinbase) job.merkle_branch in
          (
            solved coinbase root ntime nonce version,
            rw (short, read, fits, timely, rolled)
                (takes _ _ (meets_target (hash_value (sha256d header)) job.network_target)
                  (meets_target (hash_value (sha256d header)) input.share_target) (inr met)),
          )
