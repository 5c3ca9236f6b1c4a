-- ===== src/Protocol/PayloadCodec.antt =====
-- crates/rustgo-protocol/src/frame.rs: the payload of a frame. `buf` and `x` are the writers of
-- the `bytes` crate and the `postcard` serialization.
pub mod Laws
use rustgo.Prelude.{
  ℕ, ◌≤◌, ◌≡◌, Bool, true, Option, none, some, [], List, ◌∷◌, length, Result, ok, err, ◌>>=◌, ◌>>◌,
  guard, map_ok, ok_or, if◌then◌else◌,
}
use rustgo.Prelude.Bytes.{Bytes}
use rustgo.Protocol.Limits.{
  bounded, max_rendezvous_envelope_bytes, max_peer_relay_frame_bytes, max_observation_grant_bytes,
}
use rustgo.Protocol.Accepts.{
  accepts_auth_result, accepts_client_authenticate, accepts_client_hello, accepts_data_channel_bind,
  accepts_enrollment_request, accepts_enrollment_result_message, accepts_error_message,
  accepts_heartbeat, accepts_managed_config_report, accepts_managed_config_request,
  accepts_managed_config_snapshot, accepts_managed_config_update,
  accepts_managed_config_update_result, accepts_open_tcp_stream, accepts_open_udp_channel,
  accepts_peer_identity_binding, accepts_peer_identity_lookup, accepts_punch_grant,
  accepts_register_tunnels, accepts_server_challenge, accepts_server_notice,
  accepts_tcp_stream_ready, accepts_telemetry_report, accepts_tunnel_results,
  accepts_udp_session_retired,
}
use rustgo.Protocol.MessageId
use rustgo.Protocol.MessageId.{MessageId}
use rustgo.Protocol.Message
use rustgo.Protocol.Message.{Message}
use rustgo.Protocol.FrameError.{FrameError, malformed_payload, length_overflow}
use rustgo.Protocol.Externals.{BufMut, Codec, Postcard}
use rustgo.Protocol.Datagram.{encode_udp, decode_udp, IsDatagram}

-- `postcard::to_allocvec(value).map_err(|_| FrameError::LengthOverflow)`
serialize : {A : Type 0} → Codec A → A → Result FrameError Bytes
serialize codec value = ok_or (codec.to_allocvec value) length_overflow

unfoldable pub encode_payload : BufMut → Postcard → Message → Result FrameError Bytes
unfolding serialize
encode_payload buf x (Message.client_hello value) = serialize x.client_hello value
encode_payload buf x (Message.server_challenge value) = serialize x.server_challenge value
encode_payload buf x (Message.client_authenticate value) = serialize x.client_authenticate value
encode_payload buf x (Message.auth_result value) = serialize x.auth_result value
encode_payload buf x (Message.register_tunnels value) = serialize x.register_tunnels value
encode_payload buf x (Message.tunnel_results value) = serialize x.tunnel_results value
encode_payload buf x (Message.open_tcp_stream value) = serialize x.open_tcp_stream value
encode_payload buf x (Message.tcp_stream_ready value) = serialize x.tcp_stream_ready value
encode_payload buf x (Message.udp_datagram value) = encode_udp buf value
encode_payload buf x (Message.heartbeat value) = serialize x.heartbeat value
encode_payload buf x (Message.error value) = serialize x.error value
encode_payload buf x (Message.open_udp_channel value) = serialize x.open_udp_channel value
encode_payload buf x (Message.data_channel_bind value) = serialize x.data_channel_bind value
encode_payload buf x (Message.udp_session_retired value) = serialize x.udp_session_retired value
encode_payload buf x (Message.rendezvous_request value) = ok value
encode_payload buf x (Message.rendezvous_provider_decision value) = ok value
encode_payload buf x (Message.rendezvous_candidate_set value) = ok value
encode_payload buf x (Message.rendezvous_candidate_set_v2 value) = ok value
encode_payload buf x (Message.rendezvous_connectivity_result value) = ok value
encode_payload buf x (Message.rendezvous_relay_request value) = ok value
encode_payload buf x (Message.rendezvous_close value) = ok value
encode_payload buf x (Message.rendezvous_error value) = ok value
encode_payload buf x (Message.peer_relay_frame value) = ok value
encode_payload buf x (Message.observation_grant_request value) =
    serialize x.observation_grant_request value
encode_payload buf x (Message.observation_grant value) = ok value
encode_payload buf x (Message.server_notice value) = serialize x.server_notice value
encode_payload buf x (Message.peer_identity_binding value) = serialize x.peer_identity_binding value
encode_payload buf x (Message.peer_identity_lookup value) = serialize x.peer_identity_lookup value
encode_payload buf x (Message.punch_grant value) = serialize x.punch_grant value
encode_payload buf x (Message.telemetry_report value) = serialize x.telemetry_report value
encode_payload buf x (Message.managed_config_request value) =
    serialize x.managed_config_request value
encode_payload buf x (Message.managed_config_snapshot value) =
    serialize x.managed_config_snapshot value
encode_payload buf x (Message.managed_config_report value) = serialize x.managed_config_report value
encode_payload buf x (Message.managed_config_update value) = serialize x.managed_config_update value
encode_payload buf x (Message.managed_config_update_result value) =
    serialize x.managed_config_update_result value
encode_payload buf x (Message.enrollment_request value) = serialize x.enrollment_request value
encode_payload buf x (Message.enrollment_result value) = serialize x.enrollment_result value

abbrev is_empty : Bytes → Bool
is_empty bytes = bounded 0 bytes

-- `accepts` is what the type's `Deserialize` checks beyond the shape of the data.
deserialize : {A : Type 0} → Codec A → (A → Bool) → MessageId → Bytes → Result FrameError A
deserialize codec accepts message payload = do
  (value, remainder) ← ok_or (codec.take_from_bytes payload) (malformed_payload message)
  guard (accepts value) (malformed_payload message)
  guard (is_empty remainder) (malformed_payload message)
  ok value

decode_opaque : ℕ → Bytes → Result FrameError Bytes
decode_opaque max payload = if bounded max payload then ok payload else err length_overflow

-- The last arm of the `match`, which is `unreachable!`, has no identifier to match.
unfoldable pub decode_payload : Postcard → MessageId → Bytes → Result FrameError Message
unfolding deserialize decode_opaque
decode_payload x MessageId.client_hello payload =
    map_ok Message.client_hello
      (deserialize x.client_hello accepts_client_hello MessageId.client_hello payload)
decode_payload x MessageId.server_challenge payload =
    map_ok Message.server_challenge
      (deserialize x.server_challenge accepts_server_challenge MessageId.server_challenge payload)
decode_payload x MessageId.client_authenticate payload = map_ok Message.client_authenticate (
    deserialize x.client_authenticate accepts_client_authenticate MessageId.client_authenticate
      payload)
decode_payload x MessageId.auth_result payload =
    map_ok Message.auth_result
      (deserialize x.auth_result accepts_auth_result MessageId.auth_result payload)
decode_payload x MessageId.register_tunnels payload =
    map_ok Message.register_tunnels
      (deserialize x.register_tunnels accepts_register_tunnels MessageId.register_tunnels payload)
decode_payload x MessageId.tunnel_results payload =
    map_ok Message.tunnel_results
      (deserialize x.tunnel_results accepts_tunnel_results MessageId.tunnel_results payload)
decode_payload x MessageId.open_tcp_stream payload =
    map_ok Message.open_tcp_stream
      (deserialize x.open_tcp_stream accepts_open_tcp_stream MessageId.open_tcp_stream payload)
decode_payload x MessageId.tcp_stream_ready payload =
    map_ok Message.tcp_stream_ready
      (deserialize x.tcp_stream_ready accepts_tcp_stream_ready MessageId.tcp_stream_ready payload)
decode_payload x MessageId.udp_datagram payload =
    map_ok Message.udp_datagram (decode_udp MessageId.udp_datagram payload)
decode_payload x MessageId.heartbeat payload =
    map_ok Message.heartbeat (deserialize x.heartbeat accepts_heartbeat MessageId.heartbeat payload)
decode_payload x MessageId.error payload =
    map_ok Message.error (deserialize x.error accepts_error_message MessageId.error payload)
decode_payload x MessageId.open_udp_channel payload =
    map_ok Message.open_udp_channel
      (deserialize x.open_udp_channel accepts_open_udp_channel MessageId.open_udp_channel payload)
decode_payload x MessageId.data_channel_bind payload =
    map_ok Message.data_channel_bind (
      deserialize x.data_channel_bind accepts_data_channel_bind MessageId.data_channel_bind payload)
decode_payload x MessageId.udp_session_retired payload = map_ok Message.udp_session_retired (
    deserialize x.udp_session_retired accepts_udp_session_retired MessageId.udp_session_retired
      payload)
decode_payload x MessageId.rendezvous_request payload =
    map_ok Message.rendezvous_request (decode_opaque max_rendezvous_envelope_bytes payload)
decode_payload x MessageId.rendezvous_provider_decision payload =
    map_ok Message.rendezvous_provider_decision
      (decode_opaque max_rendezvous_envelope_bytes payload)
decode_payload x MessageId.rendezvous_candidate_set payload =
    map_ok Message.rendezvous_candidate_set (decode_opaque max_rendezvous_envelope_bytes payload)
decode_payload x MessageId.rendezvous_candidate_set_v2 payload =
    map_ok Message.rendezvous_candidate_set_v2 (decode_opaque max_rendezvous_envelope_bytes payload)
decode_payload x MessageId.rendezvous_connectivity_result payload =
    map_ok Message.rendezvous_connectivity_result
      (decode_opaque max_rendezvous_envelope_bytes payload)
decode_payload x MessageId.rendezvous_relay_request payload =
    map_ok Message.rendezvous_relay_request (decode_opaque max_rendezvous_envelope_bytes payload)
decode_payload x MessageId.rendezvous_close payload =
    map_ok Message.rendezvous_close (decode_opaque max_rendezvous_envelope_bytes payload)
decode_payload x MessageId.rendezvous_error payload =
    map_ok Message.rendezvous_error (decode_opaque max_rendezvous_envelope_bytes payload)
decode_payload x MessageId.peer_relay_frame payload =
    map_ok Message.peer_relay_frame (decode_opaque max_peer_relay_frame_bytes payload)
decode_payload x MessageId.observation_grant_request payload =
    map_ok Message.observation_grant_request (
      deserialize x.observation_grant_request (λ _. true) MessageId.observation_grant_request
        payload)
decode_payload x MessageId.observation_grant payload =
    map_ok Message.observation_grant (decode_opaque max_observation_grant_bytes payload)
decode_payload x MessageId.server_notice payload =
    map_ok Message.server_notice
      (deserialize x.server_notice accepts_server_notice MessageId.server_notice payload)
decode_payload x MessageId.peer_identity_binding payload = map_ok Message.peer_identity_binding (
    deserialize x.peer_identity_binding accepts_peer_identity_binding
      MessageId.peer_identity_binding payload)
decode_payload x MessageId.peer_identity_lookup payload = map_ok Message.peer_identity_lookup (
    deserialize x.peer_identity_lookup accepts_peer_identity_lookup MessageId.peer_identity_lookup
      payload)
decode_payload x MessageId.punch_grant payload =
    map_ok Message.punch_grant
      (deserialize x.punch_grant accepts_punch_grant MessageId.punch_grant payload)
decode_payload x MessageId.telemetry_report payload =
    map_ok Message.telemetry_report
      (deserialize x.telemetry_report accepts_telemetry_report MessageId.telemetry_report payload)
decode_payload x MessageId.managed_config_request payload = map_ok Message.managed_config_request (
    deserialize x.managed_config_request accepts_managed_config_request
      MessageId.managed_config_request payload)
decode_payload x MessageId.managed_config_snapshot payload =
    map_ok Message.managed_config_snapshot (
      deserialize x.managed_config_snapshot accepts_managed_config_snapshot
        MessageId.managed_config_snapshot payload)
decode_payload x MessageId.managed_config_report payload = map_ok Message.managed_config_report (
    deserialize x.managed_config_report accepts_managed_config_report
      MessageId.managed_config_report payload)
decode_payload x MessageId.managed_config_update payload = map_ok Message.managed_config_update (
    deserialize x.managed_config_update accepts_managed_config_update
      MessageId.managed_config_update payload)
decode_payload x MessageId.managed_config_update_result payload =
    map_ok Message.managed_config_update_result (
      deserialize x.managed_config_update_result accepts_managed_config_update_result
        MessageId.managed_config_update_result payload)
decode_payload x MessageId.enrollment_request payload = map_ok Message.enrollment_request (
    deserialize x.enrollment_request accepts_enrollment_request MessageId.enrollment_request
      payload)
decode_payload x MessageId.enrollment_result payload = map_ok Message.enrollment_result (
    deserialize x.enrollment_result accepts_enrollment_result_message MessageId.enrollment_result
      payload)

-- What the types of a message guarantee: the bounds of its fields, the known codes and the limits
-- that its constructors check.
abbrev pub IsTyped : Message → Type 0
IsTyped (Message.client_hello value) = accepts_client_hello value ≡ true
IsTyped (Message.server_challenge value) = accepts_server_challenge value ≡ true
IsTyped (Message.client_authenticate value) = accepts_client_authenticate value ≡ true
IsTyped (Message.auth_result value) = accepts_auth_result value ≡ true
IsTyped (Message.register_tunnels value) = accepts_register_tunnels value ≡ true
IsTyped (Message.tunnel_results value) = accepts_tunnel_results value ≡ true
IsTyped (Message.open_tcp_stream value) = accepts_open_tcp_stream value ≡ true
IsTyped (Message.tcp_stream_ready value) = accepts_tcp_stream_ready value ≡ true
IsTyped (Message.udp_datagram value) = IsDatagram value
IsTyped (Message.heartbeat value) = accepts_heartbeat value ≡ true
IsTyped (Message.error value) = accepts_error_message value ≡ true
IsTyped (Message.open_udp_channel value) = accepts_open_udp_channel value ≡ true
IsTyped (Message.data_channel_bind value) = accepts_data_channel_bind value ≡ true
IsTyped (Message.udp_session_retired value) = accepts_udp_session_retired value ≡ true
IsTyped (Message.rendezvous_request value) = length value ≤ max_rendezvous_envelope_bytes
IsTyped (Message.rendezvous_provider_decision value) = length value ≤ max_rendezvous_envelope_bytes
IsTyped (Message.rendezvous_candidate_set value) = length value ≤ max_rendezvous_envelope_bytes
IsTyped (Message.rendezvous_candidate_set_v2 value) = length value ≤ max_rendezvous_envelope_bytes
IsTyped (Message.rendezvous_connectivity_result value) =
    length value ≤ max_rendezvous_envelope_bytes
IsTyped (Message.rendezvous_relay_request value) = length value ≤ max_rendezvous_envelope_bytes
IsTyped (Message.rendezvous_close value) = length value ≤ max_rendezvous_envelope_bytes
IsTyped (Message.rendezvous_error value) = length value ≤ max_rendezvous_envelope_bytes
IsTyped (Message.peer_relay_frame value) = length value ≤ max_peer_relay_frame_bytes
IsTyped (Message.observation_grant_request value) = Unit
IsTyped (Message.observation_grant value) = length value ≤ max_observation_grant_bytes
IsTyped (Message.server_notice value) = accepts_server_notice value ≡ true
IsTyped (Message.peer_identity_binding value) = accepts_peer_identity_binding value ≡ true
IsTyped (Message.peer_identity_lookup value) = accepts_peer_identity_lookup value ≡ true
IsTyped (Message.punch_grant value) = accepts_punch_grant value ≡ true
IsTyped (Message.telemetry_report value) = accepts_telemetry_report value ≡ true
IsTyped (Message.managed_config_request value) = accepts_managed_config_request value ≡ true
IsTyped (Message.managed_config_snapshot value) = accepts_managed_config_snapshot value ≡ true
IsTyped (Message.managed_config_report value) = accepts_managed_config_report value ≡ true
IsTyped (Message.managed_config_update value) = accepts_managed_config_update value ≡ true
IsTyped (Message.managed_config_update_result value) =
    accepts_managed_config_update_result value ≡ true
IsTyped (Message.enrollment_request value) = accepts_enrollment_request value ≡ true
IsTyped (Message.enrollment_result value) = accepts_enrollment_result_message value ≡ true
