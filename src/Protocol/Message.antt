-- ===== src/Protocol/Message.antt =====
-- crates/rustgo-protocol/src/message.rs: `Message` and its identifiers. An opaque payload is its
-- bytes; `ObservationGrantRequest` has no field.
use rustgo.Prelude.Bytes.{Bytes}
use rustgo.Protocol.MessageId.{MessageId}
use rustgo.Protocol.Payload.Tunnel.{
  ClientHello, ServerChallenge, ClientAuthenticate, AuthResult, RegisterTunnels, TunnelResults,
  OpenTcpStream, TcpStreamReady, UdpDatagram, Heartbeat, ErrorMessage, OpenUdpChannel,
  DataChannelBind, UdpSessionRetired,
}
use rustgo.Protocol.Payload.Service.{
  EnrollmentRequest, EnrollmentResultMessage, ManagedConfigReport, ManagedConfigRequest,
  ManagedConfigSnapshot, ManagedConfigUpdate, ManagedConfigUpdateResult, PeerIdentityBinding,
  PeerIdentityLookup, PunchGrant, ServerNotice, TelemetryReport,
}

pub data Message : Type 0 where
  client_hello : ClientHello → Message
  server_challenge : ServerChallenge → Message
  client_authenticate : ClientAuthenticate → Message
  auth_result : AuthResult → Message
  register_tunnels : RegisterTunnels → Message
  tunnel_results : TunnelResults → Message
  open_tcp_stream : OpenTcpStream → Message
  tcp_stream_ready : TcpStreamReady → Message
  udp_datagram : UdpDatagram → Message
  heartbeat : Heartbeat → Message
  error : ErrorMessage → Message
  open_udp_channel : OpenUdpChannel → Message
  data_channel_bind : DataChannelBind → Message
  udp_session_retired : UdpSessionRetired → Message
  rendezvous_request : Bytes → Message
  rendezvous_provider_decision : Bytes → Message
  rendezvous_candidate_set : Bytes → Message
  rendezvous_candidate_set_v2 : Bytes → Message
  rendezvous_connectivity_result : Bytes → Message
  rendezvous_relay_request : Bytes → Message
  rendezvous_close : Bytes → Message
  rendezvous_error : Bytes → Message
  peer_relay_frame : Bytes → Message
  observation_grant_request : Unit {0} → Message
  observation_grant : Bytes → Message
  server_notice : ServerNotice → Message
  peer_identity_binding : PeerIdentityBinding → Message
  peer_identity_lookup : PeerIdentityLookup → Message
  punch_grant : PunchGrant → Message
  telemetry_report : TelemetryReport → Message
  managed_config_request : ManagedConfigRequest → Message
  managed_config_snapshot : ManagedConfigSnapshot → Message
  managed_config_report : ManagedConfigReport → Message
  managed_config_update : ManagedConfigUpdate → Message
  managed_config_update_result : ManagedConfigUpdateResult → Message
  enrollment_request : EnrollmentRequest → Message
  enrollment_result : EnrollmentResultMessage → Message

unfoldable pub id : Message → MessageId
id (client_hello _) = MessageId.client_hello
id (server_challenge _) = MessageId.server_challenge
id (client_authenticate _) = MessageId.client_authenticate
id (auth_result _) = MessageId.auth_result
id (register_tunnels _) = MessageId.register_tunnels
id (tunnel_results _) = MessageId.tunnel_results
id (open_tcp_stream _) = MessageId.open_tcp_stream
id (tcp_stream_ready _) = MessageId.tcp_stream_ready
id (udp_datagram _) = MessageId.udp_datagram
id (heartbeat _) = MessageId.heartbeat
id (error _) = MessageId.error
id (open_udp_channel _) = MessageId.open_udp_channel
id (data_channel_bind _) = MessageId.data_channel_bind
id (udp_session_retired _) = MessageId.udp_session_retired
id (rendezvous_request _) = MessageId.rendezvous_request
id (rendezvous_provider_decision _) = MessageId.rendezvous_provider_decision
id (rendezvous_candidate_set _) = MessageId.rendezvous_candidate_set
id (rendezvous_candidate_set_v2 _) = MessageId.rendezvous_candidate_set_v2
id (rendezvous_connectivity_result _) = MessageId.rendezvous_connectivity_result
id (rendezvous_relay_request _) = MessageId.rendezvous_relay_request
id (rendezvous_close _) = MessageId.rendezvous_close
id (rendezvous_error _) = MessageId.rendezvous_error
id (peer_relay_frame _) = MessageId.peer_relay_frame
id (observation_grant_request _) = MessageId.observation_grant_request
id (observation_grant _) = MessageId.observation_grant
id (server_notice _) = MessageId.server_notice
id (peer_identity_binding _) = MessageId.peer_identity_binding
id (peer_identity_lookup _) = MessageId.peer_identity_lookup
id (punch_grant _) = MessageId.punch_grant
id (telemetry_report _) = MessageId.telemetry_report
id (managed_config_request _) = MessageId.managed_config_request
id (managed_config_snapshot _) = MessageId.managed_config_snapshot
id (managed_config_report _) = MessageId.managed_config_report
id (managed_config_update _) = MessageId.managed_config_update
id (managed_config_update_result _) = MessageId.managed_config_update_result
id (enrollment_request _) = MessageId.enrollment_request
id (enrollment_result _) = MessageId.enrollment_result
