-- ===== src/Util.antt =====
-- src/util: byte order, hexadecimal text, CompactSize numbers, hashes as numbers, merkle trees.
pub mod Endian
pub mod Varint
pub mod Hex
pub mod Uint256
pub mod Merkle
pub mod Difficulty
pub mod Base58
pub mod Bech32
pub mod Url
