-- ===== src/Transport.antt =====
-- crates/rustgo-transport: what connections share below the protocol.
pub mod Backoff
pub mod Binding
