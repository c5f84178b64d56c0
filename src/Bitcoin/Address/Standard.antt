-- ===== src/Bitcoin/Address/Standard.antt =====
-- Which scripts addresses stand for.
use erikslund_solo_pool.Prelude.{
  ℕ, ◌+◌, ◌≤◌, ◌%◌, ◌≡◌, ◌⊎◌, inl, inr, refl, false, not, ◌&&◌, ◌||◌, Bool-cases, Option-cases, [],
  ◌∷◌, ◌++◌, Bytes, Option, none, some, length, ltb, ◌==◌, same_bytes, Throws, ok, throw, split,
  arith,
}
use erikslund_solo_pool.Util.Merkle.{Hash256}
use erikslund_solo_pool.Util.Base58.{try_base58check_decode}
use erikslund_solo_pool.Util.Bech32.{
  WitnessProgram, Encoding, segwit_address_decode, bech32_decode, decoded_program, program_of,
  is_bech32, is_bech32m, convertbits,
}
use erikslund_solo_pool.Bitcoin.Address.{
  Network, AddressError, base58_versions, bech32_hrp, p2pkh_script, p2sh_script, witness_script,
  payload_script, address_to_script,
}

-- The scripts of the standard addresses: a hash of a key, a hash of a script, and a witness program of
-- version 0 or, by OP_1 to OP_16, of a later one.
pub data IsStandard (script : Bytes) : Type 0 where
  pays_key_hash :
      (hash : Bytes)
      → length hash ≡ 20
      → script ≡ 0x76 ∷ 0xa9 ∷ 20 ∷ (hash ++ (0x88 ∷ 0xac ∷ []))
      → IsStandard script
  pays_script_hash :
      (hash : Bytes)
      → length hash ≡ 20
      → script ≡ 0xa9 ∷ 20 ∷ (hash ++ (0x87 ∷ []))
      → IsStandard script
  pays_witness_v0 :
      (program : Bytes)
      → (length program ≡ 20) ⊎ (length program ≡ 32)
      → script ≡ 0 ∷ length program ∷ program
      → IsStandard script
  pays_witness :
      (opcode : ℕ) (program : Bytes)
      → 0x51 ≤ opcode
      → opcode ≤ 0x60
      → 2 ≤ length program
      → length program ≤ 40
      → script ≡ opcode ∷ length program ∷ program
      → IsStandard script

-- What the decoder promises of a program.
IsProgram : ℕ → ℕ → Type 0
IsProgram version size =
    (version ≤ 16) × (2 ≤ size) × (size ≤ 40) × ((version ≡ 0) → (size ≡ 20) ⊎ (size ≡ 32))

-- Of every program in an option.
abbrev HasProgram : Option WitnessProgram → Type 0
HasProgram none = Unit
HasProgram (some w) = IsProgram w.version (length w.program)

program_of-HasProgram :
    (encoding : Encoding) (version : ℕ) (program : Bytes)
    → version ≤ 16
    → HasProgram (program_of encoding version program)
unfolding program_of IsProgram
program_of-HasProgram encoding version program small =
    split HasProgram (ltb (length program) 2 || ltb 40 (length program)) (λ _. tt)
      λ sized.
        split HasProgram (version == 0)
          (λ zero_version.
            split HasProgram (not (length program == 20) && not (length program == 32)) (λ _. tt)
              λ fits.
                split HasProgram (is_bech32 encoding)
                  (λ _. (small, ground arith, ground arith, λ e. ground arith)) λ _. tt)
          λ later.
            split HasProgram (is_bech32m encoding)
              (λ _. (small, ground arith, ground arith, λ e. absurd (ground arith))) λ _. tt

decoded_program-HasProgram :
    (encoding : Encoding) (symbols : Bytes) → HasProgram (decoded_program encoding symbols)
unfolding decoded_program
decoded_program-HasProgram encoding [] = tt
decoded_program-HasProgram encoding (version ∷ data5) =
    split HasProgram (ltb 16 version) (λ _. tt)
      λ small. elim (Option-cases (convertbits data5 5 8 false)) [
        | inl e ↦ rw e tt
        | inr (program, e) ↦ rw e (program_of-HasProgram encoding version program (ground arith))
      ]

segwit_address_decode-HasProgram :
    (hrp address : Bytes) → HasProgram (segwit_address_decode hrp address)
unfolding segwit_address_decode
segwit_address_decode-HasProgram hrp address = elim (Option-cases (bech32_decode address)) [
  | inl e ↦ rw (segwit_address_decode, e) tt
  | inr (decoded, e) ↦
      rw (segwit_address_decode, e)
        (split HasProgram (not (same_bytes decoded.hrp hrp)) (λ _. tt)
          λ _. decoded_program-HasProgram decoded.encoding decoded.symbols)
]

witness_script-IsStandard :
    (version : ℕ) (program : Bytes)
    → IsProgram version (length program)
    → IsStandard (witness_script version program)
unfolding witness_script IsProgram
witness_script-IsStandard version program (small, least, most, zero_sizes) =
    let size : length program % 256 ≡ length program = omega arith in
    elim (Bool-cases (version == 0)) [
      | inl e ↦
          pays_witness_v0 program (zero_sizes (ground arith)) (rw (witness_script, e, size) refl)
      | inr e ↦
          let opcode : (0x50 + version) % 256 ≡ 0x50 + version = omega arith in
          pays_witness (0x50 + version) program (ground arith) (omega arith) least most
            (rw (witness_script, e, size, opcode) refl)
    ]

-- Of every script in a result.
abbrev GivesStandard : Throws AddressError Bytes → Type 0
GivesStandard (ok script) = IsStandard script
GivesStandard (throw e) = Unit

payload_script-GivesStandard :
    (network : Network) (payload : Bytes) → GivesStandard (payload_script network payload)
unfolding payload_script p2pkh_script p2sh_script
payload_script-GivesStandard network [] = tt
payload_script-GivesStandard network (version ∷ hash160) =
    split GivesStandard (not (length hash160 == 20)) (λ _. tt)
      λ full.
        split GivesStandard (version == (base58_versions network).0)
          (λ _. pays_key_hash hash160 (ground arith) refl)
          λ _.
            split GivesStandard (version == (base58_versions network).1)
              (λ _. pays_script_hash hash160 (ground arith) refl) λ _. tt

address_to_script-GivesStandard :
    (sha256d : Bytes → Hash256) (address : Bytes) (network : Network)
    → GivesStandard (address_to_script sha256d address network)
unfolding address_to_script
address_to_script-GivesStandard sha256d address network =
    let decoded = segwit_address_decode-HasProgram (bech32_hrp network) address in
    elim (Option-cases (segwit_address_decode (bech32_hrp network) address)) [
      | inr (w, e) ↦
          rw (address_to_script, e)
            (witness_script-IsStandard w.version w.program (rw e at decoded))
      | inl e ↦ elim (Option-cases (try_base58check_decode sha256d address)) [
        | inl bad ↦ rw (address_to_script, e, bad) tt
        | inr (payload, read) ↦
            rw (address_to_script, e, read) (payload_script-GivesStandard network payload)
      ]
    ]

-- Every address that is taken, on every network, stands for one of the standard scripts: a hash of 20
-- bytes of a key or of a script, a witness program of version 0 of 20 or 32 bytes, or one of version 1
-- to 16 of 2 to 40 bytes.
pub address_to_script-IsStandard :
    (sha256d : Bytes → Hash256) (address : Bytes) (network : Network) (script : Bytes)
    → address_to_script sha256d address network ≡ ok script
    → IsStandard script
address_to_script-IsStandard sha256d address network script h =
    rw h at (address_to_script-GivesStandard sha256d address network)
