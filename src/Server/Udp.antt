-- ===== src/Server/Udp.antt =====
-- crates/rustgos/src/udp.rs: the UDP relay of a tunnel.
pub mod Address
pub mod Flows
pub mod Limits
