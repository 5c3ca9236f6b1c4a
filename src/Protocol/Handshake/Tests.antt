-- ===== src/Protocol/Handshake/Tests.antt =====
-- The theorems on versions and on the handshake, applied to a connection that comes to be active.
use rustgo.Prelude.{◌≡◌, ◌≤◌, ◌↔◌, ◌⊎◌, refl, true, none, List, [], ◌∷◌, ok, arith}
use rustgo.Prelude.Bytes.{Bytes}
use rustgo.Protocol.Version.{
  ProtocolVersion, negotiate, supports_telemetry, supports_managed_configuration,
  supports_managed_editing, supports_client_profile, negotiate_meet,
}
use rustgo.Protocol.Version as Version
use rustgo.Protocol.MessageId.{as_u16}
use rustgo.Protocol.Message.{id}
use rustgo.Protocol.Message
use rustgo.Protocol.Handshake.{
  ControlMessageDirection, client_to_server, server_to_client, awaiting_hello, awaiting_challenge,
  active, awaiting_tunnel_registration, new, transition, is_active, transition_control, run_control,
}
use rustgo.Protocol.Handshake.Order.{Handshook, main_messages, run_control-Handshook}
use rustgo.Protocol.Handshake.Gate.{
  Forward, Permitted, transition_control-Forward, before_authentication, side_iff,
}

abbrev newer : ProtocolVersion
newer = Version.new 1 5

abbrev older : ProtocolVersion
older = Version.new 1 3

negotiate_meet_example : (negotiate newer older ≡ ok older) ↔ (
    (older.major ≡ newer.major)
    × (older.major ≡ older.major)
    × (older.minor ≤ newer.minor)
    × (older.minor ≤ older.minor)
    × ((older.minor ≡ newer.minor) ⊎ (older.minor ≡ older.minor)))
negotiate_meet_example = negotiate_meet newer older older

negotiated : negotiate newer older ≡ ok older
unfolding negotiate
negotiated = refl

abbrev session_id : Bytes
session_id = 1 ∷ 2 ∷ 3 ∷ []

abbrev hello : Message.Message
hello =
    Message.client_hello record { client_name = []; fingerprint = []; heartbeat_interval_secs = 30 }

abbrev request : Message.Message
request = Message.managed_config_request record { configuration = 10 ∷ [] }

abbrev connection : List (ControlMessageDirection × Message.Message)
connection =
    (client_to_server, hello)
    ∷ (
      server_to_client,
      Message.server_challenge record { challenge = []; session_id = session_id },
    )
    ∷ (client_to_server, Message.client_authenticate record { public_key = []; signature = [] })
    ∷ (server_to_client, Message.auth_result record { accepted = true; error = none })
    ∷ (client_to_server, request)
    ∷ (client_to_server, Message.register_tunnels record { tunnels = [] })
    ∷ (client_to_server, Message.heartbeat record { sequence = 1 })
    ∷ []

connected : run_control newer new connection ≡ ok (active session_id)
unfolding run_control transition_control transition is_active supports_managed_configuration
connected = refl

run_control-Handshook_example : Handshook (main_messages connection) session_id
run_control-Handshook_example = run_control-Handshook newer connection session_id connected

greeted : transition_control awaiting_hello newer client_to_server hello ≡ ok awaiting_challenge
unfolding transition_control transition
greeted = refl

transition_control-Forward_example : Forward awaiting_hello awaiting_challenge
transition_control-Forward_example =
    transition_control-Forward awaiting_hello awaiting_challenge newer client_to_server hello
      greeted

before_authentication_example : as_u16 (id hello) ≤ 4
before_authentication_example =
    before_authentication awaiting_hello awaiting_challenge newer client_to_server hello
      (omega arith) greeted

side_iff_example :
    (transition_control (awaiting_tunnel_registration session_id) newer client_to_server request
      ≡ ok (awaiting_tunnel_registration session_id))
    ↔ (Permitted (awaiting_tunnel_registration session_id) newer client_to_server request
        × (awaiting_tunnel_registration session_id ≡ awaiting_tunnel_registration session_id))
side_iff_example =
    side_iff (awaiting_tunnel_registration session_id) (awaiting_tunnel_registration session_id)
      newer client_to_server request refl
