-- ===== src/Protocol/Externals.antt =====
-- What the frame codec relies on outside this repository: the `postcard` serialization of each
-- payload, and the big-endian writers of the `bytes` crate. They are a parameter of the codec.
use rustgo.Prelude.{ℕ, ◌≡◌, Option, some, []}
use rustgo.Prelude.Bytes.{Bytes, to_be}
use rustgo.Protocol.Payload.Tunnel.{
  ClientHello, ServerChallenge, ClientAuthenticate, AuthResult, RegisterTunnels, TunnelResults,
  OpenTcpStream, TcpStreamReady, Heartbeat, ErrorMessage, OpenUdpChannel, DataChannelBind,
  UdpSessionRetired,
}
use rustgo.Protocol.Payload.Service.{
  EnrollmentRequest, EnrollmentResultMessage, ManagedConfigReport, ManagedConfigRequest,
  ManagedConfigSnapshot, ManagedConfigUpdate, ManagedConfigUpdateResult, PeerIdentityBinding,
  PeerIdentityLookup, PunchGrant, ServerNotice, TelemetryReport,
}

-- `postcard::to_allocvec` and `postcard::take_from_bytes` at one payload type, before the checks
-- of the type's own `Deserialize` (see `Accepts`). `take_from_bytes` returns the bytes that it has
-- not read; what was serialized is read back whole.
pub record Codec (A : Type 0) : Type 0 where
  pub to_allocvec : A → Option Bytes
  pub take_from_bytes : Bytes → Option (A × Bytes)
  pub take-to : (a : A) (b : Bytes) → to_allocvec a ≡ some b → take_from_bytes b ≡ some (a, [])

-- The big-endian writers of `bytes::BufMut`, which document that they append the number's bytes,
-- most significant first.
pub record BufMut : Type 0 where
  pub put_u16 : ℕ → Bytes
  pub put_u32 : ℕ → Bytes
  pub put_u64 : ℕ → Bytes
  pub put_u16_lem : (n : ℕ) → put_u16 n ≡ to_be 2 n
  pub put_u32_lem : (n : ℕ) → put_u32 n ≡ to_be 4 n
  pub put_u64_lem : (n : ℕ) → put_u64 n ≡ to_be 8 n

-- One codec for each payload that is serialized.
pub record Postcard : Type 0 where
  pub client_hello : Codec ClientHello
  pub server_challenge : Codec ServerChallenge
  pub client_authenticate : Codec ClientAuthenticate
  pub auth_result : Codec AuthResult
  pub register_tunnels : Codec RegisterTunnels
  pub tunnel_results : Codec TunnelResults
  pub open_tcp_stream : Codec OpenTcpStream
  pub tcp_stream_ready : Codec TcpStreamReady
  pub heartbeat : Codec Heartbeat
  pub error : Codec ErrorMessage
  pub open_udp_channel : Codec OpenUdpChannel
  pub data_channel_bind : Codec DataChannelBind
  pub udp_session_retired : Codec UdpSessionRetired
  pub observation_grant_request : Codec (Unit {0})
  pub server_notice : Codec ServerNotice
  pub peer_identity_binding : Codec PeerIdentityBinding
  pub peer_identity_lookup : Codec PeerIdentityLookup
  pub punch_grant : Codec PunchGrant
  pub telemetry_report : Codec TelemetryReport
  pub managed_config_request : Codec ManagedConfigRequest
  pub managed_config_snapshot : Codec ManagedConfigSnapshot
  pub managed_config_report : Codec ManagedConfigReport
  pub managed_config_update : Codec ManagedConfigUpdate
  pub managed_config_update_result : Codec ManagedConfigUpdateResult
  pub enrollment_request : Codec EnrollmentRequest
  pub enrollment_result : Codec EnrollmentResultMessage
