-- ===== src/Protocol/MessageId.antt =====
-- crates/rustgo-protocol/src/message.rs: `MessageId`, a u16 newtype whose field is private, so
-- that its values are the 37 associated constants and what `TryFrom<u16>` accepts (1..=37): the
-- constructors below. The arm `_ => 0` of `max_payload` has no value to match.
use rustgo.Prelude.{
  ℕ, zero, suc, ◌+◌, ◌-◌, ◌*◌, ◌<◌, ◌≡◌, refl, ◌⊎◌, List, [], ◌∷◌, none, some, get_elem?, arith,
  leb, ◌&&◌, if◌then◌else◌, Result, ok, err,
}
use rustgo.Protocol.Limits.{
  udp_metadata_len, max_udp_payload_bytes, max_rendezvous_envelope_bytes,
  max_peer_relay_frame_bytes, max_observation_grant_bytes, max_server_notice_bytes,
  max_telemetry_report_bytes, max_managed_configuration_bytes,
}

pub data MessageId : Type 0 where
  client_hello server_challenge client_authenticate auth_result : MessageId
  register_tunnels tunnel_results open_tcp_stream tcp_stream_ready : MessageId
  udp_datagram heartbeat error open_udp_channel : MessageId
  data_channel_bind udp_session_retired rendezvous_request rendezvous_provider_decision : MessageId
  rendezvous_candidate_set rendezvous_connectivity_result rendezvous_relay_request
        rendezvous_close :
      MessageId
  rendezvous_error peer_relay_frame observation_grant_request observation_grant : MessageId
  server_notice peer_identity_binding peer_identity_lookup rendezvous_candidate_set_v2 : MessageId
  punch_grant telemetry_report enrollment_request enrollment_result : MessageId
  managed_config_request managed_config_snapshot managed_config_report managed_config_update :
      MessageId
  managed_config_update_result : MessageId

unfoldable pub as_u16 : MessageId → ℕ
as_u16 client_hello = 1
as_u16 server_challenge = 2
as_u16 client_authenticate = 3
as_u16 auth_result = 4
as_u16 register_tunnels = 5
as_u16 tunnel_results = 6
as_u16 open_tcp_stream = 7
as_u16 tcp_stream_ready = 8
as_u16 udp_datagram = 9
as_u16 heartbeat = 10
as_u16 error = 11
as_u16 open_udp_channel = 12
as_u16 data_channel_bind = 13
as_u16 udp_session_retired = 14
as_u16 rendezvous_request = 15
as_u16 rendezvous_provider_decision = 16
as_u16 rendezvous_candidate_set = 17
as_u16 rendezvous_connectivity_result = 18
as_u16 rendezvous_relay_request = 19
as_u16 rendezvous_close = 20
as_u16 rendezvous_error = 21
as_u16 peer_relay_frame = 22
as_u16 observation_grant_request = 23
as_u16 observation_grant = 24
as_u16 server_notice = 25
as_u16 peer_identity_binding = 26
as_u16 peer_identity_lookup = 27
as_u16 rendezvous_candidate_set_v2 = 28
as_u16 punch_grant = 29
as_u16 telemetry_report = 30
as_u16 enrollment_request = 31
as_u16 enrollment_result = 32
as_u16 managed_config_request = 33
as_u16 managed_config_snapshot = 34
as_u16 managed_config_report = 35
as_u16 managed_config_update = 36
as_u16 managed_config_update_result = 37

unfoldable pub max_payload : MessageId → ℕ
max_payload client_hello = 256
max_payload server_challenge = 128
max_payload client_authenticate = 256
max_payload auth_result = 16
max_payload register_tunnels = 32 * 1024
max_payload tunnel_results = 8 * 1024
max_payload open_tcp_stream = 160
max_payload tcp_stream_ready = 32
max_payload udp_datagram = udp_metadata_len + max_udp_payload_bytes
max_payload heartbeat = 16
max_payload error = 1024
max_payload open_udp_channel = 96
max_payload data_channel_bind = 384
max_payload udp_session_retired = 32
max_payload rendezvous_request = max_rendezvous_envelope_bytes
max_payload rendezvous_provider_decision = max_rendezvous_envelope_bytes
max_payload rendezvous_candidate_set = max_rendezvous_envelope_bytes
max_payload rendezvous_connectivity_result = max_rendezvous_envelope_bytes
max_payload rendezvous_relay_request = max_rendezvous_envelope_bytes
max_payload rendezvous_close = max_rendezvous_envelope_bytes
max_payload rendezvous_error = max_rendezvous_envelope_bytes
max_payload peer_relay_frame = max_peer_relay_frame_bytes
max_payload observation_grant_request = 0
max_payload observation_grant = max_observation_grant_bytes
max_payload server_notice = max_server_notice_bytes
max_payload peer_identity_binding = 512
max_payload peer_identity_lookup = 256
max_payload rendezvous_candidate_set_v2 = max_rendezvous_envelope_bytes
max_payload punch_grant = 160
max_payload telemetry_report = max_telemetry_report_bytes
max_payload enrollment_request = 1024
max_payload enrollment_result = 256
max_payload managed_config_request = max_managed_configuration_bytes + 3
max_payload managed_config_snapshot = max_managed_configuration_bytes + 14
max_payload managed_config_report = max_managed_configuration_bytes + 13
max_payload managed_config_update = max_managed_configuration_bytes + 13
max_payload managed_config_update_result = 1024 + 13

-- The identifiers in the order of their numbers, from 1.
abbrev ids : List MessageId
ids =
    client_hello ∷ server_challenge ∷ client_authenticate ∷ auth_result ∷ register_tunnels
    ∷ tunnel_results ∷ open_tcp_stream ∷ tcp_stream_ready ∷ udp_datagram ∷ heartbeat ∷ error
    ∷ open_udp_channel ∷ data_channel_bind ∷ udp_session_retired ∷ rendezvous_request
    ∷ rendezvous_provider_decision ∷ rendezvous_candidate_set ∷ rendezvous_connectivity_result
    ∷ rendezvous_relay_request ∷ rendezvous_close ∷ rendezvous_error ∷ peer_relay_frame
    ∷ observation_grant_request ∷ observation_grant ∷ server_notice ∷ peer_identity_binding
    ∷ peer_identity_lookup ∷ rendezvous_candidate_set_v2 ∷ punch_grant ∷ telemetry_report
    ∷ enrollment_request ∷ enrollment_result ∷ managed_config_request ∷ managed_config_snapshot
    ∷ managed_config_report ∷ managed_config_update ∷ managed_config_update_result ∷ []

unfoldable pub try_from : ℕ → Result ℕ MessageId
try_from value =
    if leb 1 value && leb value 37
    then elim (get_elem? ids (value - 1)) [ some m ↦ ok m | none ↦ err value ]
    else err value

Numbered : ℕ → List MessageId → Type 0
Numbered k [] = Unit
Numbered k (m ∷ ms) = (as_u16 m ≡ k) × Numbered (suc k) ms

get_elem?-Numbered :
    (k i : ℕ) (ms : List MessageId) (m : MessageId)
    → Numbered k ms
    → get_elem? ms i ≡ some m
    → as_u16 m ≡ k + i
unfolding Numbered
get_elem?-Numbered k i [] m n h = cc
get_elem?-Numbered k zero (x ∷ ms) m n h = ground arith
get_elem?-Numbered k (suc i) (x ∷ ms) m n h = omega (arith, get_elem?-Numbered (suc k) i ms m n.1 h)

ids-Numbered : Numbered 1 ids
unfolding Numbered as_u16
ids-Numbered = omega arith

try_from-number : (m : MessageId) → try_from (as_u16 m) ≡ ok m
unfolding try_from as_u16
try_from-number client_hello = refl
try_from-number _ = refl

number-try_from : (value : ℕ) (m : MessageId) → try_from value ≡ ok m → as_u16 m ≡ value
unfolding try_from
number-try_from value m h = ground (arith, get_elem?-Numbered 1 (value - 1) ids m ids-Numbered)

-- A number is accepted exactly if it is the number of a message: the number of every message is
-- accepted and gives that message back, a number that is accepted is that of its message, and any
-- other number is returned as the error.
pub try_from-as_u16 :
    ((m : MessageId) → try_from (as_u16 m) ≡ ok m)
    × ((value : ℕ) (m : MessageId) → try_from value ≡ ok m → as_u16 m ≡ value)
    × ((value : ℕ) → (value ≡ 0) ⊎ (37 < value) → try_from value ≡ err value)
unfolding try_from
try_from-as_u16 = (try_from-number, number-try_from, λ value h. ground arith)
