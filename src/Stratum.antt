-- ===== src/Stratum.antt =====
-- stratum/: the jobs of the pool and the shares that miners submit on them.
pub mod Json
pub mod Message
pub mod Job
pub mod Seen
pub mod Vardiff
pub mod Session
