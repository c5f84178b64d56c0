-- ===== src/Bitcoin.antt =====
-- src/bitcoin: block heights in scripts, the coinbase transaction and its split.
pub mod Serialize
pub mod Coinbase
pub mod Transaction
pub mod BlockTemplate
pub mod Address
