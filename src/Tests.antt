-- ===== src/Tests.antt =====
-- The theorems applied at concrete inputs, a module for each part of the program.
mod Util
mod Bitcoin
mod Sv2
mod Stratum
mod Seen
mod Session
mod Superseded
mod Addresses
mod Net
