-- ===== src/Protocol/PayloadCodec/Laws.antt =====
-- A payload that was encoded is decoded to its message, and a decoded message has the identifier
-- that its frame names.
use rustgo.Prelude.{ℕ, ◌≤◌, ◌≡◌, refl, Bool, true, some, Result, ok, map_ok, arith, le→leb, length}
use rustgo.Prelude.Bytes.{Bytes}
use rustgo.Protocol.MessageId.{MessageId}
use rustgo.Protocol.Message.{Message, id}
use rustgo.Protocol.FrameError.{FrameError}
use rustgo.Protocol.Externals.{BufMut, Codec, Postcard}
use rustgo.Protocol.Payload.Tunnel.{UdpDatagram}
use rustgo.Protocol.Datagram.{encode_udp, decode_udp, IsDatagram}
use rustgo.Protocol.Datagram.RoundTrip.{encode_udp-ids, decode_udp-encode_udp}
use rustgo.Protocol.PayloadCodec.{
  serialize, deserialize, decode_opaque, encode_payload, decode_payload, IsTyped,
}

pub decode_payload-id :
    (x : Postcard) (i : MessageId) (p : Bytes) (m : Message)
    → decode_payload x i p ≡ ok m
    → id m ≡ i
unfolding decode_payload id
decode_payload-id x MessageId.client_hello p m h = ground arith
decode_payload-id x _ p m h = ground arith

module _ {A : Type 0} (codec : Codec A) (accepts : A → Bool) (i : MessageId)
    (con : A → Message) where
  typed_back :
      (v : A) (p : Bytes)
      → accepts v ≡ true
      → serialize codec v ≡ ok p
      → map_ok con (deserialize codec accepts i p) ≡ ok (con v)
  unfolding serialize deserialize
  typed_back v p t h =
      let written : codec.to_allocvec v ≡ some p = ground arith in rw (codec.take-to v p written, t)

opaque_back :
    {max : ℕ} (con : Bytes → Message) (v p : Bytes)
    → length v ≤ max
    → ◌≡◌ {A = Result FrameError Bytes} (ok v) (ok p)
    → map_ok con (decode_opaque max p) ≡ ok (con v)
unfolding decode_opaque
opaque_back {max} con v p t h = let same : v ≡ p = cc in rw (← same, le→leb (length v) max t)

datagram_back :
    (buf : BufMut) (d : UdpDatagram) (p : Bytes)
    → IsDatagram d
    → encode_udp buf d ≡ ok p
    → map_ok Message.udp_datagram (decode_udp MessageId.udp_datagram p)
      ≡ ok (Message.udp_datagram d)
datagram_back buf d p t h =
    let (tunnel_ne, session_ne) = encode_udp-ids buf d p h in
    let (p', e, back) = decode_udp-encode_udp buf MessageId.udp_datagram d t tunnel_ne session_ne in
    let same : p ≡ p' = cc in rw (same, back)

-- A message that its types allow and that was encoded is decoded to itself.
pub decode_payload-encode_payload :
    (buf : BufMut) (x : Postcard) (m : Message) (p : Bytes)
    → IsTyped m
    → encode_payload buf x m ≡ ok p
    → decode_payload x (id m) p ≡ ok m
unfolding encode_payload decode_payload id
decode_payload-encode_payload buf x (Message.client_hello v) p t h =
    typed_back x.client_hello _ _ Message.client_hello v p t h
decode_payload-encode_payload buf x (Message.server_challenge v) p t h =
    typed_back x.server_challenge _ _ Message.server_challenge v p t h
decode_payload-encode_payload buf x (Message.client_authenticate v) p t h =
    typed_back x.client_authenticate _ _ Message.client_authenticate v p t h
decode_payload-encode_payload buf x (Message.auth_result v) p t h =
    typed_back x.auth_result _ _ Message.auth_result v p t h
decode_payload-encode_payload buf x (Message.register_tunnels v) p t h =
    typed_back x.register_tunnels _ _ Message.register_tunnels v p t h
decode_payload-encode_payload buf x (Message.tunnel_results v) p t h =
    typed_back x.tunnel_results _ _ Message.tunnel_results v p t h
decode_payload-encode_payload buf x (Message.open_tcp_stream v) p t h =
    typed_back x.open_tcp_stream _ _ Message.open_tcp_stream v p t h
decode_payload-encode_payload buf x (Message.tcp_stream_ready v) p t h =
    typed_back x.tcp_stream_ready _ _ Message.tcp_stream_ready v p t h
decode_payload-encode_payload buf x (Message.udp_datagram v) p t h = datagram_back buf v p t h
decode_payload-encode_payload buf x (Message.heartbeat v) p t h =
    typed_back x.heartbeat _ _ Message.heartbeat v p t h
decode_payload-encode_payload buf x (Message.error v) p t h =
    typed_back x.error _ _ Message.error v p t h
decode_payload-encode_payload buf x (Message.open_udp_channel v) p t h =
    typed_back x.open_udp_channel _ _ Message.open_udp_channel v p t h
decode_payload-encode_payload buf x (Message.data_channel_bind v) p t h =
    typed_back x.data_channel_bind _ _ Message.data_channel_bind v p t h
decode_payload-encode_payload buf x (Message.udp_session_retired v) p t h =
    typed_back x.udp_session_retired _ _ Message.udp_session_retired v p t h
decode_payload-encode_payload buf x (Message.rendezvous_request v) p t h =
    opaque_back Message.rendezvous_request v p t h
decode_payload-encode_payload buf x (Message.rendezvous_provider_decision v) p t h =
    opaque_back Message.rendezvous_provider_decision v p t h
decode_payload-encode_payload buf x (Message.rendezvous_candidate_set v) p t h =
    opaque_back Message.rendezvous_candidate_set v p t h
decode_payload-encode_payload buf x (Message.rendezvous_candidate_set_v2 v) p t h =
    opaque_back Message.rendezvous_candidate_set_v2 v p t h
decode_payload-encode_payload buf x (Message.rendezvous_connectivity_result v) p t h =
    opaque_back Message.rendezvous_connectivity_result v p t h
decode_payload-encode_payload buf x (Message.rendezvous_relay_request v) p t h =
    opaque_back Message.rendezvous_relay_request v p t h
decode_payload-encode_payload buf x (Message.rendezvous_close v) p t h =
    opaque_back Message.rendezvous_close v p t h
decode_payload-encode_payload buf x (Message.rendezvous_error v) p t h =
    opaque_back Message.rendezvous_error v p t h
decode_payload-encode_payload buf x (Message.peer_relay_frame v) p t h =
    opaque_back Message.peer_relay_frame v p t h
decode_payload-encode_payload buf x (Message.observation_grant_request v) p t h =
    typed_back x.observation_grant_request (λ _. true) _ Message.observation_grant_request v p refl
      h
decode_payload-encode_payload buf x (Message.observation_grant v) p t h =
    opaque_back Message.observation_grant v p t h
decode_payload-encode_payload buf x (Message.server_notice v) p t h =
    typed_back x.server_notice _ _ Message.server_notice v p t h
decode_payload-encode_payload buf x (Message.peer_identity_binding v) p t h =
    typed_back x.peer_identity_binding _ _ Message.peer_identity_binding v p t h
decode_payload-encode_payload buf x (Message.peer_identity_lookup v) p t h =
    typed_back x.peer_identity_lookup _ _ Message.peer_identity_lookup v p t h
decode_payload-encode_payload buf x (Message.punch_grant v) p t h =
    typed_back x.punch_grant _ _ Message.punch_grant v p t h
decode_payload-encode_payload buf x (Message.telemetry_report v) p t h =
    typed_back x.telemetry_report _ _ Message.telemetry_report v p t h
decode_payload-encode_payload buf x (Message.managed_config_request v) p t h =
    typed_back x.managed_config_request _ _ Message.managed_config_request v p t h
decode_payload-encode_payload buf x (Message.managed_config_snapshot v) p t h =
    typed_back x.managed_config_snapshot _ _ Message.managed_config_snapshot v p t h
decode_payload-encode_payload buf x (Message.managed_config_report v) p t h =
    typed_back x.managed_config_report _ _ Message.managed_config_report v p t h
decode_payload-encode_payload buf x (Message.managed_config_update v) p t h =
    typed_back x.managed_config_update _ _ Message.managed_config_update v p t h
decode_payload-encode_payload buf x (Message.managed_config_update_result v) p t h =
    typed_back x.managed_config_update_result _ _ Message.managed_config_update_result v p t h
decode_payload-encode_payload buf x (Message.enrollment_request v) p t h =
    typed_back x.enrollment_request _ _ Message.enrollment_request v p t h
decode_payload-encode_payload buf x (Message.enrollment_result v) p t h =
    typed_back x.enrollment_result _ _ Message.enrollment_result v p t h
