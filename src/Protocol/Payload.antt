-- ===== src/Protocol/Payload.antt =====
-- The payloads of the messages, in two groups.
pub mod Tunnel
pub mod Service
