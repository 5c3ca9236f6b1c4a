-- ===== src/Rendezvous.antt =====
-- crates/rustgo-rendezvous: the negotiation of a peer-to-peer session.
pub mod State
