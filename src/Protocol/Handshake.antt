-- ===== src/Protocol/Handshake.antt =====
-- crates/rustgo-protocol/src/state.rs: which control message is accepted in which state of the
-- handshake. A state is a value; a transition returns the next state or an error.
pub mod Order
pub mod Gate
mod Tests
use rustgo.Prelude.{
  Bool, true, false, ◌&&◌, ◌||◌, not, if◌then◌else◌, Result, ok, err, List, [], ◌∷◌, ◌>>=◌,
}
use rustgo.Prelude.Bytes.{Bytes, eq_bytes}
use rustgo.Protocol.Version.{
  ProtocolVersion, ProtocolErrorCode, invalid_state, unknown_session, supports_managed_editing,
  supports_managed_configuration, supports_telemetry,
}
use rustgo.Protocol.Message.{
  Message, client_hello, server_challenge, client_authenticate, auth_result, register_tunnels,
  managed_config_update, managed_config_update_result, managed_config_request,
  managed_config_snapshot, managed_config_report, telemetry_report, heartbeat, open_tcp_stream,
  open_udp_channel, tcp_stream_ready, error, observation_grant_request, observation_grant,
  server_notice, rendezvous_request, rendezvous_provider_decision, rendezvous_candidate_set,
  rendezvous_candidate_set_v2, rendezvous_connectivity_result, rendezvous_relay_request,
  rendezvous_close, rendezvous_error, peer_relay_frame, peer_identity_binding, peer_identity_lookup,
  punch_grant,
}

pub data ControlMessageDirection : Type 0 where
  client_to_server server_to_client : ControlMessageDirection

pub data ClientHandshakeState : Type 0 where
  awaiting_hello : ClientHandshakeState
  awaiting_challenge : ClientHandshakeState
  awaiting_authenticate : Bytes → ClientHandshakeState
  awaiting_auth_result : Bytes → ClientHandshakeState
  awaiting_tunnel_registration : Bytes → ClientHandshakeState
  active : Bytes → ClientHandshakeState
  rejected : ClientHandshakeState

pub record StateError : Type 0 where
  pub code : ProtocolErrorCode

abbrev pub StateError_invalid_state : StateError
StateError_invalid_state = record { code = invalid_state }

abbrev pub StateError_unknown_session : StateError
StateError_unknown_session = record { code = unknown_session }

abbrev pub new : ClientHandshakeState
new = awaiting_hello

unfoldable pub transition : ClientHandshakeState → Message → Result StateError ClientHandshakeState
transition awaiting_hello (client_hello _) = ok awaiting_challenge
transition awaiting_challenge (server_challenge challenge) =
    ok (awaiting_authenticate challenge.session_id)
transition (awaiting_authenticate session_id) (client_authenticate _) =
    ok (awaiting_auth_result session_id)
transition (awaiting_auth_result session_id) (auth_result result) =
    if result.accepted then ok (awaiting_tunnel_registration session_id) else ok rejected
transition (awaiting_tunnel_registration session_id) (register_tunnels _) = ok (active session_id)
transition (active session_id) (heartbeat _) = ok (active session_id)
transition (active session_id) (open_tcp_stream _) = ok (active session_id)
transition (active session_id) (open_udp_channel _) = ok (active session_id)
transition (active session_id) (tcp_stream_ready _) = ok (active session_id)
transition (active session_id) (error _) = ok (active session_id)
transition (active session_id) (observation_grant_request _) = ok (active session_id)
transition (active session_id) (observation_grant _) = ok (active session_id)
transition (active session_id) (server_notice _) = ok (active session_id)
transition (active session_id) (rendezvous_request _) = ok (active session_id)
transition (active session_id) (rendezvous_provider_decision _) = ok (active session_id)
transition (active session_id) (rendezvous_candidate_set _) = ok (active session_id)
transition (active session_id) (rendezvous_candidate_set_v2 _) = ok (active session_id)
transition (active session_id) (rendezvous_connectivity_result _) = ok (active session_id)
transition (active session_id) (rendezvous_relay_request _) = ok (active session_id)
transition (active session_id) (rendezvous_close _) = ok (active session_id)
transition (active session_id) (rendezvous_error _) = ok (active session_id)
transition (active session_id) (peer_relay_frame _) = ok (active session_id)
transition (active session_id) (peer_identity_binding _) = ok (active session_id)
transition (active session_id) (peer_identity_lookup _) = ok (active session_id)
transition (active session_id) (punch_grant _) = ok (active session_id)
transition _ _ = err StateError_invalid_state

is_awaiting_tunnel_registration : ClientHandshakeState → Bool
is_awaiting_tunnel_registration (awaiting_tunnel_registration _) = true
is_awaiting_tunnel_registration _ = false

unfoldable pub is_active : ClientHandshakeState → Bool
is_active (active _) = true
is_active _ = false

unfoldable pub is_rejected : ClientHandshakeState → Bool
is_rejected rejected = true
is_rejected _ = false

is_client_to_server : ControlMessageDirection → Bool
is_client_to_server client_to_server = true
is_client_to_server server_to_client = false

-- `if allowed { Ok(self.clone()) } else { Err(invalid_state) }`
stay_if : Bool → ClientHandshakeState → Result StateError ClientHandshakeState
stay_if allowed self = if allowed then ok self else err StateError_invalid_state

unfoldable pub transition_control :
    ClientHandshakeState
    → ProtocolVersion
    → ControlMessageDirection
    → Message
    → Result StateError ClientHandshakeState
unfolding is_awaiting_tunnel_registration is_client_to_server stay_if
transition_control self version direction (managed_config_update _) =
    stay_if
      (is_awaiting_tunnel_registration self
        && supports_managed_editing version
        && is_client_to_server direction)
      self
transition_control self version direction (managed_config_update_result _) =
    stay_if
      (is_awaiting_tunnel_registration self
        && supports_managed_editing version
        && not (is_client_to_server direction))
      self
transition_control self version direction (managed_config_request _) =
    stay_if
      (supports_managed_configuration version
        && (is_awaiting_tunnel_registration self && is_client_to_server direction))
      self
transition_control self version direction (managed_config_snapshot _) =
    stay_if
      (supports_managed_configuration version
        && (is_awaiting_tunnel_registration self && not (is_client_to_server direction)))
      self
transition_control self version direction (managed_config_report _) =
    stay_if
      (supports_managed_configuration version
        && ((is_active self || is_awaiting_tunnel_registration self)
            && is_client_to_server direction))
      self
transition_control self version direction (telemetry_report _) =
    stay_if (is_active self && is_client_to_server direction && supports_telemetry version) self
transition_control self version direction message = transition self message

-- Whether a data channel names the session of an active control channel.
unfoldable pub validate_data_channel_session :
    ClientHandshakeState → Bytes → Result StateError (Unit {0})
validate_data_channel_session (active session_id) candidate =
    if eq_bytes session_id candidate then ok tt else err StateError_unknown_session
validate_data_channel_session _ candidate = err StateError_invalid_state

-- The messages of one connection, taken in turn, as the owner of the state does.
unfoldable pub run : ClientHandshakeState → List Message → Result StateError ClientHandshakeState
run self [] = ok self
run self (m ∷ ms) = do next ← transition self m; run next ms

unfoldable pub run_control :
    ProtocolVersion
    → ClientHandshakeState
    → List (ControlMessageDirection × Message)
    → Result StateError ClientHandshakeState
run_control version self [] = ok self
run_control version self ((direction, m) ∷ ms) = do
  next ← transition_control self version direction m
  run_control version next ms
