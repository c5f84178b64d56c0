-- ===== src/Sv2.antt =====
-- src/sv2: the Stratum V2 frames, the payload codecs and the mining channel messages.
pub mod Codec
pub mod Writer
pub mod Reader
pub mod Wire
pub mod Messages
