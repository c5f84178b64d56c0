-- ===== src/Bitcoin/Address.antt =====
-- bitcoin/network.hpp and address.cpp: the networks, and the script that an address stands for.
pub mod Standard
use erikslund_solo_pool.Prelude.{
  ℕ, ◌+◌, Bool, ◌||◌, [], ◌∷◌, ◌++◌, Bytes, Option, none, some, length, ◌==◌, ◌%◌, if◌then◌else◌,
  same_bytes, codes, not, Throws, ok, throw,
}
use erikslund_solo_pool.Util.Merkle.{Hash256}
use erikslund_solo_pool.Util.Base58.{try_base58check_decode}
use erikslund_solo_pool.Util.Bech32.{WitnessProgram, segwit_address_decode}

pub data Network : Type 0 where
  mainnet testnet regtest signet : Network

unfoldable pub network_from_string : Bytes → Option Network
network_from_string name =
    if same_bytes name (codes "main") || same_bytes name (codes "mainnet")
    then some mainnet
    else if same_bytes name (codes "test")
        || same_bytes name (codes "testnet")
        || same_bytes name (codes "testnet4")
    then some testnet
    else if same_bytes name (codes "regtest")
    then some regtest
    else if same_bytes name (codes "signet")
    then some signet
    else none

unfoldable pub network_name : Network → Bytes
network_name mainnet = codes "main"
network_name testnet = codes "test"
network_name regtest = codes "regtest"
network_name signet = codes "signet"

-- The version bytes of the two kinds of addresses in base 58: first p2pkh, then p2sh.
unfoldable pub base58_versions : Network → ℕ × ℕ
base58_versions mainnet = (0x00, 0x05)
base58_versions _ = (0x6f, 0xc4)

unfoldable pub bech32_hrp : Network → Bytes
bech32_hrp mainnet = codes "bc"
bech32_hrp regtest = codes "bcrt"
bech32_hrp testnet = codes "tb"
bech32_hrp signet = codes "tb"

unfoldable pub p2pkh_script : Bytes → Bytes
p2pkh_script hash160 = (0x76 ∷ 0xa9 ∷ 0x14 ∷ []) ++ (hash160 ++ (0x88 ∷ 0xac ∷ []))

unfoldable pub p2sh_script : Bytes → Bytes
p2sh_script hash160 = (0xa9 ∷ 0x14 ∷ []) ++ (hash160 ++ (0x87 ∷ []))

unfoldable pub witness_script : ℕ → Bytes → Bytes
witness_script version program =
    (if version == 0 then 0x00 else (0x50 + version) % 256) ∷ length program % 256 ∷ program

pub data AddressError : Type 0 where
  unrecognized_or_wrong_network : AddressError

-- The 21 bytes of an address in base 58: a version and a hash.
unfoldable pub payload_script : Network → Bytes → Throws AddressError Bytes
payload_script network [] = throw unrecognized_or_wrong_network
payload_script network (version ∷ hash160) =
    if not (length hash160 == 20)
    then throw unrecognized_or_wrong_network
    else if version == (base58_versions network).0
    then ok (p2pkh_script hash160)
    else if version == (base58_versions network).1
    then ok (p2sh_script hash160)
    else throw unrecognized_or_wrong_network

unfoldable pub address_to_script : (Bytes → Hash256) → Bytes → Network → Throws AddressError Bytes
address_to_script sha256d address network =
    elim (segwit_address_decode (bech32_hrp network) address) [
      | some witness ↦ ok (witness_script witness.version witness.program)
      | none ↦ elim (try_base58check_decode sha256d address) [
        | some payload ↦ payload_script network payload
        | none ↦ throw unrecognized_or_wrong_network
      ]
    ]
