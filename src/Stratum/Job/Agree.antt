-- ===== src/Stratum/Job/Agree.antt =====
-- stratum/job.cpp: the three validations are one. A share of the first protocol is the share of an
-- extended channel with its fields, and that is the share of a standard channel with its coinbase.
use erikslund_solo_pool.Prelude.{
  ℕ, ◌+◌, ◌-◌, ◌*◌, ◌^◌, ◌<◌, ◌≡◌, refl, sym, ap, false, not, ◌||◌, ◌++◌, append_assoc, Bytes,
  Option, none, some, length, length-append, bit_and, ltb, ◌==◌, ==_iff, le→ltb, ok, Bool-cases,
  Option-cases, ok_inj, inl, inr, arith,
}
use erikslund_solo_pool.Prelude.Masks.{merged, merged-outside, merged-inside}
use erikslund_solo_pool.Prelude.Double.{Double}
use erikslund_solo_pool.Util.Hex.{try_parse_hex_u32}
use erikslund_solo_pool.Util.Merkle.{Hash256}
use erikslund_solo_pool.Stratum.Job.{Job}
use erikslund_solo_pool.Stratum.Job.Work.{
  StandardWork, ExtendedWork, build_coinbase2, build_standard_work, build_extended_work,
}
use erikslund_solo_pool.Stratum.Job.Share.{
  ShareInput, StandardShareInput, ExtendedShareInput, complement, decoded, rolled_version,
  validate_coinbase, validate_share, validate_standard_share, validate_extended_share,
}
use erikslund_solo_pool.Stratum.Job.Checks.{length_text, decoded-some, throw-ok}

-- Whatever version bits a miner sends, a version that is accepted agrees with the job's outside a
-- mask of 32 bits.
pub rolled_version-mask :
    (version version_mask : ℕ) (version_bits_hex : Option Bytes) (accepted : ℕ)
    → version_mask < 2 ^ 32
    → rolled_version version version_bits_hex version_mask ≡ ok accepted
    → bit_and accepted (complement version_mask) ≡ bit_and version (complement version_mask)
unfolding rolled_version merged
rolled_version-mask version version_mask none accepted small h = rw (sym (ok_inj h)) refl
rolled_version-mask version version_mask (some text) accepted small h =
    elim (Option-cases (try_parse_hex_u32 text)) [
      | inl bad ↦ absurd (throw-ok (rw (rolled_version, bad) at h))
      | inr (rolled, read) ↦ elim (Bool-cases (version_mask == 0)) [
        | inl unmasked ↦ elim (Bool-cases (rolled == 0)) [
          | inl nothing ↦ rw (sym (ok_inj (rw (rolled_version, read, unmasked, nothing) at h))) refl
          | inr something ↦ absurd (throw-ok (rw (rolled_version, read, unmasked, something) at h))
        ]
        | inr masked ↦ elim (Bool-cases (bit_and rolled (complement version_mask) == 0)) [
          | inr outside ↦ absurd (throw-ok (rw (rolled_version, read, masked, outside) at h))
          | inl inside ↦
              let same : merged version rolled version_mask (complement version_mask) ≡ accepted =
                ok_inj (rw (rolled_version, read, masked, inside) at h) in
              rw (sym same) (
                merged-outside 32 version rolled version_mask (complement version_mask)
                  (omega arith))
        ]
      ]
    ]

-- Where version rolling is negotiated, with a mask of 32 bits that is not zero, an accepted version
-- has the bits that the miner sent inside the mask.
pub rolled_version-rolled :
    (version version_mask : ℕ) (text : Bytes) (rolled accepted : ℕ)
    → version_mask < 2 ^ 32
    → 0 < version_mask
    → try_parse_hex_u32 text ≡ some rolled
    → rolled_version version (some text) version_mask ≡ ok accepted
    → bit_and accepted version_mask ≡ bit_and rolled version_mask
unfolding rolled_version merged
rolled_version-rolled version version_mask text rolled accepted small rolls read h =
    let masked : (version_mask == 0) ≡ false = ground arith in
    elim (Bool-cases (bit_and rolled (complement version_mask) == 0)) [
      | inr outside ↦ absurd (throw-ok (rw (rolled_version, read, masked, outside) at h))
      | inl inside ↦
          let same : merged version rolled version_mask (complement version_mask) ≡ accepted =
            ok_inj (rw (rolled_version, read, masked, inside) at h) in
          rw (sym same)
            (merged-inside 32 version rolled version_mask (complement version_mask) (omega arith))
    ]

-- The guard of an extended share lets through what fills the extranonce.
sizes_fit :
    (prefix extranonce : Bytes) (extranonce_size size : ℕ)
    → length extranonce ≡ extranonce_size
    → length (prefix ++ extranonce) ≡ size
    → (not (length extranonce == extranonce_size)
        || ltb size (length prefix)
        || not (extranonce_size == size - length prefix))
      ≡ false
sizes_fit prefix extranonce extranonce_size size sized whole =
    ground (arith, length-append prefix extranonce)

module _ (F : Double) (sha256d sha256d64 : Bytes → Hash256) (job : Job F.Value) where
  pub standard_input : StandardWork → ExtendedShareInput → StandardShareInput
  standard_input work input = record {
    legacy_coinbase = work.legacy_coinbase;
    merkle_root = work.merkle_root;
    ntime = input.ntime;
    nonce = input.nonce;
    version = input.version;
    version_mask = input.version_mask;
    share_target = input.share_target;
    now_unix = input.now_unix;
  }

  -- A share of an extended channel, on the extended work for a payout script and with an
  -- extranonce of the size agreed on, is judged as the share of a standard channel whose standard
  -- work was built for the prefix and the extranonce together.
  pub extended-standard :
      (payout_script : Bytes) (input : ExtendedShareInput) (work : StandardWork)
      → length input.extranonce ≡ input.extranonce_size
      → build_standard_work F sha256d sha256d64 job payout_script
          (input.extranonce_prefix ++ input.extranonce)
        ≡ ok work
      → validate_extended_share F sha256d sha256d64 job
          (build_extended_work F job payout_script)
          input
        ≡ validate_standard_share F sha256d sha256d64 job (standard_input work input)
  unfolding build_standard_work validate_extended_share build_extended_work standard_input
  extended-standard payout_script input work sized h =
      let whole = input.extranonce_prefix ++ input.extranonce in
      elim (Bool-cases (length whole == job.extranonce_size)) [
        | inr other ↦ absurd (throw-ok (rw other at h))
        | inl fills ↦
            let regrouped : (job.coinbase1 ++ whole) ++ build_coinbase2 F job payout_script
                ≡ ((job.coinbase1 ++ input.extranonce_prefix) ++ input.extranonce)
                  ++ build_coinbase2 F job payout_script =
              ap (λ (front : Bytes). front ++ build_coinbase2 F job payout_script)
                (sym (append_assoc job.coinbase1 input.extranonce_prefix input.extranonce)) in
            let made = ok_inj (rw fills at h) in
            rw
              (
                sym made,
                regrouped,
                sizes_fit input.extranonce_prefix input.extranonce input.extranonce_size
                    job.extranonce_size sized ((==_iff _ _).0 fills),
              )
              refl
      ]

  pub extended_input : ShareInput → Bytes → ℕ → ℕ → ℕ → ExtendedShareInput
  extended_input input extranonce2 ntime nonce version = record {
    extranonce_prefix = input.extranonce1;
    extranonce = extranonce2;
    extranonce_size = length extranonce2;
    ntime = ntime;
    nonce = nonce;
    version = version;
    version_mask = input.version_mask;
    share_target = input.share_target;
    now_unix = input.now_unix;
  }

  pub extended_work : ShareInput → ExtendedWork
  extended_work input = record {
    coinbase_tx_prefix = job.coinbase1;
    coinbase_tx_suffix = input.coinbase2;
    merkle_path = job.merkle_branch;
  }

  -- A share of the first protocol whose fields read, whose two extranonces fill the job's and
  -- whose version bits are accepted under a mask of 32 bits gets the verdict, accepted or
  -- rejected, of an extended channel with its fields.
  pub validate_share-extended :
      (input : ShareInput) (extranonce2 : Bytes) (ntime nonce version : ℕ)
      → decoded input ≡ some (extranonce2, ntime, nonce)
      → length extranonce2 ≡ job.extranonce2_size
      → length input.extranonce1 + job.extranonce2_size ≡ job.extranonce_size
      → input.version_mask < 2 ^ 32
      → rolled_version job.version input.version_bits_hex input.version_mask ≡ ok version
      → validate_share F sha256d sha256d64 job input
        ≡ validate_extended_share F sha256d sha256d64 job
            (extended_work input)
            (extended_input input extranonce2 ntime nonce version)
  unfolding validate_share validate_coinbase validate_extended_share validate_standard_share
      extended_input extended_work
  validate_share-extended input extranonce2 ntime nonce version read full both mask rolled =
      let short = le→ltb (job.extranonce2_size * 2) (length input.extranonce2_hex) (
        omega (
          arith,
          length_text input.extranonce2_hex extranonce2
              (decoded-some input extranonce2 ntime nonce read).0,
        )) in
      let fits = (==_iff (length extranonce2) job.extranonce2_size).1 full in
      let same_outside =
        (==_iff (bit_and version (complement input.version_mask))
            (bit_and job.version (complement input.version_mask))).1
          (rolled_version-mask job.version input.version_mask input.version_bits_hex version mask
            rolled) in
      let sizes =
        sizes_fit input.extranonce1 extranonce2 (length extranonce2) job.extranonce_size refl
          (omega (arith, length-append input.extranonce1 extranonce2)) in
      rw (short, read, fits, rolled, sizes, same_outside) refl
