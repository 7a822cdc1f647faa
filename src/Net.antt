-- ===== src/Net.antt =====
-- util/net/: addresses.
pub mod HostAndPort
