-- ===== src/Tests/Addresses.antt =====
-- util/base58.cpp, bech32.cpp and bitcoin/address.cpp: an address of each kind. The hash is the first
-- byte.
use erikslund_solo_pool.Prelude.{
  ◌<◌, All-replicate, ◌≡◌, refl, [], ◌∷◌, Bytes, some, ok, codes, arith, replicate, IsBytes,
  same_bytes, Throws,
}
use erikslund_solo_pool.Util.Base58.{try_base58check_decode, base58check_encode}
use erikslund_solo_pool.Util.Base58.Laws.{try_base58check_decode-base58check_encode}
use erikslund_solo_pool.Util.Bech32.{
  segwit_address_decode, bech32_decode, charset_index, verify_checksum, polymod, hrp_expand,
  convertbits,
}
use erikslund_solo_pool.Bitcoin.Address.{
  mainnet, address_to_script, AddressError, bech32_hrp, witness_script,
}
use erikslund_solo_pool.Bitcoin.Address.Standard.{IsStandard, address_to_script-IsStandard}
use erikslund_solo_pool.Tests.Stratum.{first_byte, first_byte-IsHash}

-- A version byte of 0 and a hash.
abbrev payload : Bytes
payload = 0 ∷ 0 ∷ replicate 19 7

payload-IsBytes : IsBytes payload
payload-IsBytes = (omega arith, (omega arith, All-replicate (λ b. b < 256) 19 7 (omega arith)))

try_base58check_decode-base58check_encode_example :
    try_base58check_decode first_byte (base58check_encode first_byte payload) ≡ some payload
try_base58check_decode-base58check_encode_example =
    try_base58check_decode-base58check_encode first_byte payload payload-IsBytes
      (first_byte-IsHash.hash-IsBytes payload) (first_byte-IsHash.length-hash payload)

-- The address of BIP173 for a hash of a key.
segwit : Throws AddressError Bytes
segwit = address_to_script first_byte (codes "bc1qw508d6qejxtdg4y5r3zarvary0c5xw7kv8f3t4") mainnet

abbrev script : Bytes
script =
    0 ∷ 20 ∷ 0x75 ∷ 0x1e ∷ 0x76 ∷ 0xe8 ∷ 0x19 ∷ 0x91 ∷ 0x96 ∷ 0xd4 ∷ 0x54 ∷ 0x94 ∷ 0x1c ∷ 0x45
    ∷ 0xd1 ∷ 0xb3 ∷ 0xa3 ∷ 0x23 ∷ 0xf1 ∷ 0x43 ∷ 0x3b ∷ 0xd6 ∷ []

segwit_script : segwit ≡ ok script
unfolding segwit address_to_script segwit_address_decode bech32_decode charset_index verify_checksum
    polymod hrp_expand same_bytes bech32_hrp convertbits witness_script
segwit_script = refl

address_to_script-IsStandard_example : IsStandard script
unfolding segwit
address_to_script-IsStandard_example =
    address_to_script-IsStandard first_byte (codes "bc1qw508d6qejxtdg4y5r3zarvary0c5xw7kv8f3t4")
      mainnet script segwit_script
