-- ===== src/Server/Udp/Limits.antt =====
-- crates/rustgos/src/udp.rs: `UdpRuntimeLimits`, the limits of a UDP tunnel. A duration is its nanoseconds.
pub mod Expiry
mod Tests
use Prim.Native.Nat.{max}
use rustgo.Prelude.{
  ℕ, ◌+◌, ◌-◌, ◌*◌, ◌/◌, ◌%◌, ◌^◌, Bool, true, false, not, ◌&&◌, Option, none, some, ltb, leb, ◌==◌,
  if◌then◌else◌, Result, ok, err,
}
use rustgo.Prelude.Bytes.{Bytes}
use rustgo.Protocol.FrameError.{FrameError}
use rustgo.Protocol.Payload.Tunnel.{OpenUdpChannel}
use rustgo.Protocol.Accepts.{has_valid_limits}
use rustgo.Server.Session.{IoErrorKind}

pub record UdpRuntimeLimits : Type 0 where
  pub queue_capacity : ℕ
  pub idle_timeout : ℕ
  pub sweep_interval : ℕ
  pub sweep_batch : ℕ
  pub writer_delay : ℕ
  pub test_disconnect_after_replies : Option ℕ

pub data UdpRelayError : Type 0 where
  io_error : IoErrorKind → UdpRelayError
  frame_error : FrameError → UdpRelayError
  data_channel_closed : UdpRelayError
  control_channel_closed : UdpRelayError
  data_channel_setup_timeout : UdpRelayError
  retirement_delivery_failed : UdpRelayError
  invalid_frame : UdpRelayError
  frame_too_large : UdpRelayError
  payload_too_large : UdpRelayError
  session_allocation : UdpRelayError
  short_datagram_write : UdpRelayError
  task_join : UdpRelayError
  internal_test_disconnect : UdpRelayError
  invalid_limits : UdpRelayError

-- `as_millis()`
abbrev pub as_millis : ℕ → ℕ
as_millis nanos = nanos / 1000000

abbrev pub is_zero : Option ℕ → Bool
is_zero none = false
is_zero (some n) = n == 0

unfoldable pub is_valid : UdpRuntimeLimits → Bool
is_valid self =
    ltb 0 self.queue_capacity
    && not (self.idle_timeout == 0)
    && leb (as_millis self.idle_timeout) (2 ^ 32 - 1)
    && not (self.sweep_interval == 0)
    && ltb 0 self.sweep_batch
    && not (is_zero self.test_disconnect_after_replies)

abbrev pub fits_u32 : ℕ → Bool
fits_u32 n = ltb n (2 ^ 32)

unfoldable pub open_channel :
    UdpRuntimeLimits
    → (tunnel_id channel_id : ℕ) → (binding_token : Bytes) → (max_sessions max_payload : ℕ)
    → Result UdpRelayError OpenUdpChannel
unfolding has_valid_limits
open_channel self tunnel_id channel_id binding_token max_sessions max_payload =
    let request : OpenUdpChannel = record {
      tunnel_id = tunnel_id;
      channel_id = channel_id;
      binding_token = binding_token;
      max_sessions = max_sessions;
      idle_timeout_millis = as_millis self.idle_timeout;
      max_payload_bytes = max_payload;
      queue_capacity = self.queue_capacity;
    } in
    if fits_u32 max_sessions
      && fits_u32 (as_millis self.idle_timeout)
      && fits_u32 max_payload
      && fits_u32 self.queue_capacity
      && has_valid_limits request
    then ok request
    else err invalid_limits

abbrev pub div_ceil : ℕ → ℕ → ℕ
div_ceil a b = if a % b == 0 then a / b else a / b + 1

-- The sweeps that come before a timeout is over, one at least.
abbrev pub sweeps_before_timeout : (idle_timeout sweep_interval : ℕ) → ℕ
sweeps_before_timeout idle_timeout sweep_interval = max (idle_timeout / sweep_interval) 1

unfoldable pub minimum_sweep_batch : (capacity idle_timeout sweep_interval : ℕ) → Option ℕ
minimum_sweep_batch capacity idle_timeout sweep_interval =
    if sweep_interval == 0
    then none
    else (let batch = div_ceil capacity (sweeps_before_timeout idle_timeout sweep_interval) in
        if ltb batch (2 ^ 64) then some batch else none)

unfoldable pub effective_sweep_batch : UdpRuntimeLimits → (capacity : ℕ) → Result UdpRelayError ℕ
unfolding minimum_sweep_batch
effective_sweep_batch self capacity =
    elim (minimum_sweep_batch capacity self.idle_timeout self.sweep_interval) [
      | none ↦ err invalid_limits
      | some minimum ↦ ok (max self.sweep_batch minimum)
    ]
