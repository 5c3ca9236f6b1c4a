-- ===== src/Protocol/FrameError.antt =====
-- crates/rustgo-protocol/src/frame.rs: the errors of the frame codec.
use rustgo.Prelude.{ℕ}
use rustgo.Protocol.MessageId.{MessageId}

pub data FrameError : Type 0 where
  invalid_magic : FrameError
  unknown_message : ℕ → FrameError
  unsupported_flags : ℕ → FrameError
  payload_too_large : (declared max : ℕ) → FrameError
  message_payload_too_large : MessageId → (declared max : ℕ) → FrameError
  truncated : (needed available : ℕ) → FrameError
  malformed_payload : MessageId → FrameError
  trailing_bytes : ℕ → FrameError
  length_overflow : FrameError
