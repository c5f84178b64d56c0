-- ===== src/Net.antt =====
-- net/: what stands in front of the sessions.
pub mod ProxyProtocol
