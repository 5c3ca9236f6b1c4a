-- ===== src/Protocol/Limits.antt =====
-- crates/rustgo-protocol/src/message.rs: the size limits, and `try_from` of the bounded types.
use rustgo.Prelude.{
  ℕ, Bool, ◌*◌, List, length, leb, Result, ok, err, if◌then◌else◌, Option, none, some, true,
}

abbrev pub max_managed_configuration_bytes : ℕ
max_managed_configuration_bytes = 65536

abbrev pub max_client_name_bytes : ℕ
max_client_name_bytes = 128

abbrev pub max_fingerprint_bytes : ℕ
max_fingerprint_bytes = 64

abbrev pub max_challenge_bytes : ℕ
max_challenge_bytes = 64

abbrev pub max_session_id_bytes : ℕ
max_session_id_bytes = 32

abbrev pub max_public_key_bytes : ℕ
max_public_key_bytes = 64

abbrev pub max_signature_bytes : ℕ
max_signature_bytes = 128

abbrev pub max_binding_token_bytes : ℕ
max_binding_token_bytes = 64

abbrev pub max_tunnel_name_bytes : ℕ
max_tunnel_name_bytes = 128

abbrev pub max_udp_payload_bytes : ℕ
max_udp_payload_bytes = 65507

abbrev pub max_error_detail_bytes : ℕ
max_error_detail_bytes = 512

abbrev pub max_rendezvous_envelope_bytes : ℕ
max_rendezvous_envelope_bytes = 16 * 1024

abbrev pub max_peer_relay_frame_bytes : ℕ
max_peer_relay_frame_bytes = 65600

abbrev pub max_observation_grant_bytes : ℕ
max_observation_grant_bytes = 96

abbrev pub max_server_notice_bytes : ℕ
max_server_notice_bytes = 1024

abbrev pub max_enrollment_key_bytes : ℕ
max_enrollment_key_bytes = 512

abbrev pub max_enrollment_request_id_bytes : ℕ
max_enrollment_request_id_bytes = 128

abbrev pub max_telemetry_report_bytes : ℕ
max_telemetry_report_bytes = 83

abbrev pub max_tunnels : ℕ
max_tunnels = 64

abbrev pub max_udp_sessions_per_tunnel : ℕ
max_udp_sessions_per_tunnel = 1000000

abbrev pub max_udp_queue_capacity : ℕ
max_udp_queue_capacity = 65536

abbrev pub udp_metadata_len : ℕ
udp_metadata_len = 31

pub record BoundExceeded : Type 0 where
  pub actual : ℕ
  pub max : ℕ

-- Whether a value fits its bound: the test of `BoundedBytes::try_from` and its siblings.
abbrev pub bounded {ℓ} : {A : Type ℓ} → ℕ → List A → Bool
bounded max value = leb (length value) max

abbrev pub bounded? {ℓ} : {A : Type ℓ} → ℕ → Option (List A) → Bool
bounded? max none = true
bounded? max (some value) = bounded max value

-- `BoundedBytes::<MAX>::try_from`: the value itself, or how long it is.
abbrev pub try_from {ℓ} : {A : Type ℓ} → ℕ → List A → Result BoundExceeded (List A)
try_from max value =
    if bounded max value then ok value else err (record { actual = length value; max = max })
