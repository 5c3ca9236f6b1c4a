-- ===== src/Server/Registry/Tests.antt =====
-- Two clients of a server that lets in two.
use rustgo.Prelude.{
  ℕ, zero, suc, ◌+◌, ◌≤◌, true, false, some, List, [], ◌∷◌, length, ok, err, ◌≡◌, ◌≢◌, refl, arith,
}
use rustgo.Prelude.Bytes.{Bytes}
use rustgo.Prelude.Dict.{insert}
use rustgo.Protocol.Version.{ProtocolVersion, new}
use rustgo.Protocol.Payload.Tunnel.{DataChannelBind}
use rustgo.Transport.Binding.{ChannelBinding, tcp}
use rustgo.Server.Session.{Surroundings, already_connected, capacity_reached}
use rustgo.Server.Session.Delivery.{tcp_request}
use rustgo.Server.Session.Steps.{prepares_tcp, ends}
use rustgo.Server.Registry.{
  AuthenticatedClient, ClientRegistry, RegistryState, claim_with_outbound, release,
  is_active_session, authenticate_data_channel,
}
use rustgo.Server.Registry.Invariant.{IsRegistry}
use rustgo.Server.Registry.Steps.{
  RegistryStep, claim, let_go, terminate, on_session, registry_run, empty_registry,
  registry_run-IsRegistry, registry_run-bound,
}
use rustgo.Server.Registry.Release.{
  release-is_active_session, authenticate_data_channel-is_active_session,
}

abbrev repeated : ℕ → ℕ → Bytes
repeated zero b = []
repeated (suc n) b = b ∷ repeated n b

abbrev registry : ClientRegistry
registry = record { max_clients = 2; binding_capacity = 4; binding_ttl = 10 }

abbrev here : Surroundings
here = record {
  identifiers = λ i. some 5;
  tokens = λ i. some (repeated 32 7);
  now = 100;
  checked_add = λ a b. some (a + b);
}

abbrev version : ProtocolVersion
version = new 1 6

abbrev person : (name fingerprint session_id : ℕ) → AuthenticatedClient
person n f s = record { name = n ∷ []; fingerprint = f ∷ []; session_id = s ∷ [] }

abbrev steps : List RegistryStep
steps =
    claim here (person 1 11 21) version
    ∷ claim here (person 2 12 22) version
    ∷ let_go (person 1 11 20)
    ∷ terminate (2 ∷ [])
    ∷ on_session 2 ends
    ∷ []

abbrev both : RegistryState
both = registry_run registry empty_registry steps

name_test :
    (claim_with_outbound registry here (person 1 13 23) version both).0 ≡ err already_connected
unfolding registry_run claim_with_outbound insert
name_test = refl

full_test :
    (claim_with_outbound registry here (person 3 13 23) version both).0 ≡ err capacity_reached
unfolding registry_run claim_with_outbound insert
full_test = refl

again_test :
    (claim_with_outbound registry here (person 2 12 24) version (release (person 2 12 22) both)).0
    ≡ ok 3
unfolding registry_run claim_with_outbound release insert
again_test = refl

cancelled_test : is_active_session both (person 2 12 22) ≡ false
unfolding registry_run is_active_session insert
cancelled_test = refl

registry_run-IsRegistry_example : IsRegistry (registry_run registry empty_registry steps)
registry_run-IsRegistry_example = registry_run-IsRegistry registry steps

registry_run-bound_example : length (registry_run registry empty_registry steps).active ≤ 2
registry_run-bound_example = registry_run-bound registry steps

first_test : (claim_with_outbound registry here (person 1 11 21) version empty_registry).0 ≡ ok 1
unfolding claim_with_outbound
first_test = refl

apart : (person 2 12 22).fingerprint ≢ (person 1 11 21).fingerprint
apart = λ same. ground arith

release-is_active_session_example :
    (is_active_session (release (person 2 12 22) both) (person 2 12 22) ≡ false)
    × (is_active_session (release (person 2 12 22) both) (person 1 11 21)
        ≡ is_active_session both (person 1 11 21))
release-is_active_session_example =
    release-is_active_session both (person 2 12 22) (person 1 11 21)
      (registry_run-IsRegistry registry steps) apart

-- The first client has asked for the TCP channel 5 of its tunnel 1.
abbrev asking : List RegistryStep
asking = claim here (person 1 11 21) version ∷ on_session 1 (prepares_tcp here 1 44) ∷ []

abbrev asked : RegistryState
asked = registry_run registry empty_registry asking

abbrev request : DataChannelBind
request = tcp_request (1 ∷ []) (21 ∷ []) 1 5 (repeated 32 7)

abbrev channel : ChannelBinding × ℕ
channel = (record { client_id = 1 ∷ []; session_id = 21 ∷ []; channel_kind = tcp 1 5 }, 44)

granted_test : (authenticate_data_channel 105 request version asked).0 ≡ ok channel
unfolding registry_run authenticate_data_channel insert
granted_test = refl

authenticate_data_channel-is_active_session_example :
    (f : Bytes) × (is_active_session asked
        (record { name = 1 ∷ []; fingerprint = f; session_id = 21 ∷ [] })
      ≡ true)
authenticate_data_channel-is_active_session_example =
    authenticate_data_channel-is_active_session 105 request version asked channel
      (registry_run-IsRegistry registry asking) granted_test
