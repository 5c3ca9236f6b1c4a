-- ===== src/Nat.antt =====
-- crates/rustgo-nat: what observed mappings of a NAT say, and the ports that are predicted of them.
pub mod Integer
pub mod Observation
pub mod Predict
