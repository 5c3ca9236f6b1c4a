-- ===== src/Path.antt =====
-- crates/rustgo-path: the selection of one authenticated path between two peers.
pub mod State
pub mod Manager
pub mod Install
