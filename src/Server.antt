-- ===== src/Server.antt =====
-- crates/rustgos: the relay server.
pub mod Udp
pub mod Session
pub mod Registry
pub mod Guard
