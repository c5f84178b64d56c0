-- ===== src/Stats.antt =====
-- stats/: the rates of shares and the counters of a worker.
pub mod Hashrate
pub mod ShareAccounting
