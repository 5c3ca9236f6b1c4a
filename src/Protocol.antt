-- ===== src/Protocol.antt =====
-- crates/rustgo-protocol: the wire protocol of the control and data connections.
pub mod Version
pub mod Limits
pub mod Payload
pub mod Accepts
pub mod MessageId
pub mod Message
pub mod Externals
pub mod FrameError
pub mod Datagram
pub mod PayloadCodec
pub mod Frame
pub mod Handshake
