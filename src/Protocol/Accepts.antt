-- ===== src/Protocol/Accepts.antt =====
-- crates/rustgo-protocol/src/message.rs: what the `Deserialize` implementations of the payloads
-- check beyond the shape of the data: the bounds of `BoundedBytes`, `BoundedString` and
-- `BoundedVec`, the known error codes and protocol numbers, the limits of a UDP channel, and the
-- identifiers of a retired UDP session. Any check that fails is the same deserialization error, so
-- the order of the checks does not show.
use rustgo.Prelude.{
  ℕ, Bool, true, not, ◌&&◌, ◌||◌, Option, none, some, List, [], ◌∷◌, ltb, leb, ◌==◌,
}
use rustgo.Protocol.Version.{ProtocolErrorCode}
use rustgo.Protocol.Limits.{
  bounded, bounded?, max_binding_token_bytes, max_challenge_bytes, max_client_name_bytes,
  max_enrollment_key_bytes, max_enrollment_request_id_bytes, max_error_detail_bytes,
  max_fingerprint_bytes, max_managed_configuration_bytes, max_public_key_bytes,
  max_session_id_bytes, max_signature_bytes, max_tunnel_name_bytes, max_tunnels,
  max_udp_payload_bytes, max_udp_queue_capacity, max_udp_sessions_per_tunnel,
}
use rustgo.Protocol.Payload.Tunnel.{
  ClientHello, ServerChallenge, ClientAuthenticate, AuthResult, TunnelRegistration, RegisterTunnels,
  TunnelResult, TunnelResults, OpenTcpStream, OpenUdpChannel, UdpSessionRetired, DataChannelBind,
  TcpStreamReady, Heartbeat, ErrorMessage,
}
use rustgo.Protocol.Payload.Service.{
  ServerNotice, PunchGrant, PeerIdentityBinding, PeerIdentityLookup, TelemetryReport,
  EnrollmentRequest, EnrollmentResultMessage, ManagedConfigRequest, ManagedConfigSnapshot,
  ManagedConfigReport, ManagedConfigUpdate, ManagedConfigUpdateResult,
}

abbrev all {ℓ} : {A : Type ℓ} → (A → Bool) → List A → Bool
all p [] = true
all p (x ∷ xs) = p x && all p xs

-- `ProtocolErrorCode`'s `Deserialize`.
unfoldable pub known_code : ProtocolErrorCode → Bool
known_code value = (leb 1 value && leb value 12) || value == 255

abbrev known_code? : Option ProtocolErrorCode → Bool
known_code? none = true
known_code? (some value) = known_code value

-- `TunnelProtocol`'s and `DataChannelKind`'s `Deserialize`.
unfoldable pub known_protocol : ℕ → Bool
known_protocol value = value == 1 || value == 2

abbrev known_protocol? : Option ℕ → Bool
known_protocol? none = true
known_protocol? (some value) = known_protocol value

unfoldable pub has_valid_limits : OpenUdpChannel → Bool
has_valid_limits v =
    ltb 0 v.tunnel_id
    && ltb 0 v.channel_id
    && ltb 0 v.max_sessions
    && leb v.max_sessions max_udp_sessions_per_tunnel
    && ltb 0 v.idle_timeout_millis
    && ltb 0 v.max_payload_bytes
    && leb v.max_payload_bytes max_udp_payload_bytes
    && ltb 0 v.queue_capacity
    && leb v.queue_capacity max_udp_queue_capacity

unfoldable pub accepts_client_hello : ClientHello → Bool
accepts_client_hello v =
    bounded max_client_name_bytes v.client_name && bounded max_fingerprint_bytes v.fingerprint

unfoldable pub accepts_server_challenge : ServerChallenge → Bool
accepts_server_challenge v =
    bounded max_challenge_bytes v.challenge && bounded max_session_id_bytes v.session_id

unfoldable pub accepts_client_authenticate : ClientAuthenticate → Bool
accepts_client_authenticate v =
    bounded max_public_key_bytes v.public_key && bounded max_signature_bytes v.signature

unfoldable pub accepts_auth_result : AuthResult → Bool
accepts_auth_result v = known_code? v.error

unfoldable pub accepts_tunnel_registration : TunnelRegistration → Bool
accepts_tunnel_registration v = bounded max_tunnel_name_bytes v.name && known_protocol v.protocol

unfoldable pub accepts_register_tunnels : RegisterTunnels → Bool
accepts_register_tunnels v =
    bounded max_tunnels v.tunnels && all accepts_tunnel_registration v.tunnels

unfoldable pub accepts_tunnel_result : TunnelResult → Bool
accepts_tunnel_result v = known_code? v.error

unfoldable pub accepts_tunnel_results : TunnelResults → Bool
accepts_tunnel_results v = bounded max_tunnels v.results && all accepts_tunnel_result v.results

unfoldable pub accepts_open_tcp_stream : OpenTcpStream → Bool
accepts_open_tcp_stream v = bounded max_binding_token_bytes v.binding_token

unfoldable pub accepts_open_udp_channel : OpenUdpChannel → Bool
accepts_open_udp_channel v = bounded max_binding_token_bytes v.binding_token && has_valid_limits v

unfoldable pub accepts_udp_session_retired : UdpSessionRetired → Bool
accepts_udp_session_retired v = not (v.tunnel_id == 0 || v.session_id == 0)

unfoldable pub accepts_data_channel_bind : DataChannelBind → Bool
accepts_data_channel_bind v =
    bounded max_client_name_bytes v.client_name
    && bounded max_session_id_bytes v.session_id
    && known_protocol v.kind
    && bounded max_binding_token_bytes v.binding_token

unfoldable pub accepts_tcp_stream_ready : TcpStreamReady → Bool
accepts_tcp_stream_ready v = known_code? v.error

unfoldable pub accepts_heartbeat : Heartbeat → Bool
accepts_heartbeat _ = true

unfoldable pub accepts_error_message : ErrorMessage → Bool
accepts_error_message v = known_code v.code && bounded max_error_detail_bytes v.detail

unfoldable pub accepts_server_notice : ServerNotice → Bool
accepts_server_notice v =
    bounded max_error_detail_bytes v.detail && bounded? max_client_name_bytes v.peer

unfoldable pub accepts_punch_grant : PunchGrant → Bool
accepts_punch_grant _ = true

unfoldable pub accepts_peer_identity_binding : PeerIdentityBinding → Bool
accepts_peer_identity_binding v =
    bounded max_client_name_bytes v.peer
    && bounded max_public_key_bytes v.public_key
    && known_protocol? v.protocol

unfoldable pub accepts_peer_identity_lookup : PeerIdentityLookup → Bool
accepts_peer_identity_lookup v = bounded max_client_name_bytes v.peer

unfoldable pub accepts_telemetry_report : TelemetryReport → Bool
accepts_telemetry_report _ = true

unfoldable pub accepts_enrollment_request : EnrollmentRequest → Bool
accepts_enrollment_request v =
    bounded max_enrollment_key_bytes v.enrollment_key
    && bounded max_public_key_bytes v.public_key
    && bounded max_enrollment_request_id_bytes v.request_id

unfoldable pub accepts_enrollment_result_message : EnrollmentResultMessage → Bool
accepts_enrollment_result_message v = bounded? max_client_name_bytes v.client_id

unfoldable pub accepts_managed_config_request : ManagedConfigRequest → Bool
accepts_managed_config_request v = bounded max_managed_configuration_bytes v.configuration

unfoldable pub accepts_managed_config_snapshot : ManagedConfigSnapshot → Bool
accepts_managed_config_snapshot v = bounded? max_managed_configuration_bytes v.configuration

unfoldable pub accepts_managed_config_report : ManagedConfigReport → Bool
accepts_managed_config_report v = bounded max_managed_configuration_bytes v.results

unfoldable pub accepts_managed_config_update : ManagedConfigUpdate → Bool
accepts_managed_config_update v = bounded max_managed_configuration_bytes v.configuration

unfoldable pub accepts_managed_config_update_result : ManagedConfigUpdateResult → Bool
accepts_managed_config_update_result v = bounded? 1024 v.error
