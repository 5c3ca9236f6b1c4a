-- ===== src/Protocol/Payload/Tunnel.antt =====
-- crates/rustgo-protocol/src/message.rs: the payloads of the handshake, of tunnels and of data
-- channels. A number is of the width that the source gives it; a `BoundedBytes` and a
-- `BoundedString` are their bytes (a string is its UTF-8 encoding, whose length the bound counts),
-- a `BoundedVec` is a list, and their bounds are checked in `Accepts`.
use rustgo.Prelude.{ℕ, Bool, Option, List}
use rustgo.Prelude.Bytes.{Bytes}
use rustgo.Protocol.Version.{ProtocolErrorCode}

pub data SocketAddress : Type 0 where
  v4 : Bytes → ℕ → SocketAddress
  v6 : Bytes → ℕ → SocketAddress

pub record ClientHello : Type 0 where
  pub client_name : Bytes
  pub fingerprint : Bytes
  pub heartbeat_interval_secs : ℕ

pub record ServerChallenge : Type 0 where
  pub challenge : Bytes
  pub session_id : Bytes

pub record ClientAuthenticate : Type 0 where
  pub public_key : Bytes
  pub signature : Bytes

pub record AuthResult : Type 0 where
  pub accepted : Bool
  pub error : Option ProtocolErrorCode

pub record TunnelRegistration : Type 0 where
  pub tunnel_id : ℕ
  pub name : Bytes
  pub protocol : ℕ
  pub remote_port : ℕ

pub record RegisterTunnels : Type 0 where
  pub tunnels : List TunnelRegistration

pub record TunnelResult : Type 0 where
  pub tunnel_id : ℕ
  pub accepted : Bool
  pub error : Option ProtocolErrorCode

pub record TunnelResults : Type 0 where
  pub results : List TunnelResult

pub record OpenTcpStream : Type 0 where
  pub tunnel_id : ℕ
  pub connection_id : ℕ
  pub peer : SocketAddress
  pub binding_token : Bytes

pub record OpenUdpChannel : Type 0 where
  pub tunnel_id : ℕ
  pub channel_id : ℕ
  pub binding_token : Bytes
  pub max_sessions : ℕ
  pub idle_timeout_millis : ℕ
  pub max_payload_bytes : ℕ
  pub queue_capacity : ℕ

pub record UdpSessionRetired : Type 0 where
  pub tunnel_id : ℕ
  pub session_id : ℕ

pub record DataChannelBind : Type 0 where
  pub client_name : Bytes
  pub session_id : Bytes
  pub kind : ℕ
  pub tunnel_id : ℕ
  pub target_id : ℕ
  pub binding_token : Bytes

pub record TcpStreamReady : Type 0 where
  pub connection_id : ℕ
  pub accepted : Bool
  pub error : Option ProtocolErrorCode

pub record UdpDatagram : Type 0 where
  pub tunnel_id : ℕ
  pub session_id : ℕ
  pub source : SocketAddress
  pub payload : Bytes

pub record Heartbeat : Type 0 where
  pub sequence : ℕ

pub record ErrorMessage : Type 0 where
  pub code : ProtocolErrorCode
  pub detail : Bytes
