-- ===== src/Protocol/Payload/Service.antt =====
-- crates/rustgo-protocol/src/message.rs: the payloads of rendezvous, telemetry, enrollment and
-- managed configuration. The conventions are those of `Tunnel`.
use rustgo.Prelude.{ℕ, Bool, Option}
use rustgo.Prelude.Bytes.{Bytes}

pub data EnrollmentErrorCode : Type 0 where
  invalid_key expired already_used purpose_mismatch already_bound disabled : EnrollmentErrorCode
  public_key_conflict capacity_reached unavailable unsupported_version : EnrollmentErrorCode
  pending_approval approval_rejected replacement_approval_pending : EnrollmentErrorCode

pub record ServerNotice : Type 0 where
  pub session_id : Bytes
  pub code : ℕ
  pub detail : Bytes
  pub peer : Option Bytes

pub record PunchGrant : Type 0 where
  pub session_id : Bytes
  pub generation : ℕ
  pub start_unix_millis : ℕ
  pub window_millis : ℕ
  pub cadence_millis : ℕ
  pub initiator_candidates_sha256 : Bytes
  pub responder_candidates_sha256 : Bytes
  pub token : Bytes

pub record PeerIdentityBinding : Type 0 where
  pub session_id : Bytes
  pub peer : Bytes
  pub public_key : Bytes
  pub protocol : Option ℕ
  pub peer_is_provider : Bool
  pub expires_unix_secs : ℕ

pub record PeerIdentityLookup : Type 0 where
  pub session_id : Bytes
  pub peer : Bytes

pub record TelemetryReport : Type 0 where
  pub sampled_unix_millis : ℕ
  pub sequence : ℕ
  pub cpu_basis_points : ℕ
  pub memory_used_bytes : ℕ
  pub memory_total_bytes : ℕ
  pub disk_used_bytes : ℕ
  pub disk_total_bytes : ℕ
  pub tx_bytes_per_sec : ℕ
  pub rx_bytes_per_sec : ℕ

pub record EnrollmentRequest : Type 0 where
  pub protocol_version : ℕ
  pub enrollment_key : Bytes
  pub public_key : Bytes
  pub request_id : Bytes

pub record EnrollmentResultMessage : Type 0 where
  pub protocol_version : ℕ
  pub accepted : Bool
  pub client_id : Option Bytes
  pub revision : Option ℕ
  pub error : Option EnrollmentErrorCode

pub record ManagedConfigRequest : Type 0 where
  pub configuration : Bytes

pub record ManagedConfigSnapshot : Type 0 where
  pub revision : ℕ
  pub configuration : Option Bytes

pub record ManagedConfigReport : Type 0 where
  pub revision : ℕ
  pub results : Bytes

pub record ManagedConfigUpdate : Type 0 where
  pub expected_revision : ℕ
  pub configuration : Bytes

pub record ManagedConfigUpdateResult : Type 0 where
  pub revision : ℕ
  pub error : Option Bytes
