-- ===== src/Server/Guard/Tests.antt =====
-- A client that may register two tunnels, on a server with an address for UDP.
use rustgo.Prelude.{
  ℕ, zero, suc, ◌+◌, Bool, true, false, Option, none, some, List, [], ◌∷◌, err, ◌≡◌, refl,
}
use rustgo.Prelude.Bytes.{Bytes}
use rustgo.Prelude.Dict.{insert}
use rustgo.Protocol.Version.{v0_4, supports_managed_configuration}
use rustgo.Protocol.Payload.Tunnel.{TunnelRegistration, TunnelResult}
use rustgo.Transport.Binding.{tcp}
use rustgo.Server.Session.{SessionRuntime, IoErrorKind, addr_in_use, unknown_tunnel}
use rustgo.Server.Guard.{
  ControlSessionGuard, Attempt, tunnel_rejected, tunnel_port_in_use, tunnel_tcp, tunnel_udp,
  register_tunnels, issue_data_channel_binding, mark_unavailable,
}
use rustgo.Server.Guard.Registration.{Answers, register_tunnels-Answers}

abbrev runtime : SessionRuntime
runtime = record {
  client = 97 ∷ [];
  fingerprint = 98 ∷ [];
  session_id = 1 ∷ [];
  bindings = record {
    store = record {
      client_id = 97 ∷ [];
      session_id = 1 ∷ [];
      capacity = 2;
      time_to_live = 10;
      pending = [];
    };
    pending_tcp = [];
    pending_udp = [];
  };
  cancellation = false;
  available = true;
  binding_ttl = 10;
  protocol_version = v0_4;
}

abbrev guard : ControlSessionGuard
guard = record {
  max_tunnels_per_client = 2;
  udp_listener_ip = some (10 ∷ 0 ∷ 0 ∷ 1 ∷ []);
  runtime = runtime;
  listeners = [];
  tunnel_ids = [];
  tunnel_names = [];
  unavailable = false;
}

abbrev failing : ℕ → Option IoErrorKind
failing zero = some addr_in_use
failing (suc n) = none

-- The first port is in use.
abbrev attempts : ℕ → Attempt
attempts n = record {
  failure = failing n;
  surroundings = record {
    identifiers = λ i. some (5 + i);
    tokens = λ i. some ((7 + i) ∷ []);
    now = 100;
    checked_add = λ a b. some (a + b);
  };
  destination = 40 + n;
}

abbrev tunnel : (id name protocol : ℕ) → TunnelRegistration
tunnel id name protocol = record {
  tunnel_id = id;
  name = name ∷ [];
  protocol = protocol;
  remote_port = 8000;
}

abbrev tunnels : List TunnelRegistration
tunnels =
    tunnel 1 65 tunnel_tcp
    ∷ tunnel 1 65 tunnel_tcp
    ∷ tunnel 1 66 tunnel_udp
    ∷ tunnel 2 66 tunnel_udp
    ∷ tunnel 3 67 tunnel_tcp
    ∷ []

abbrev never_blank : Bytes → Bool
never_blank name = false

abbrev accepts : ℕ → TunnelResult
accepts id = record { tunnel_id = id; accepted = true; error = none }

abbrev refuses_with : (id code : ℕ) → TunnelResult
refuses_with id code = record { tunnel_id = id; accepted = false; error = some code }

results_test :
    (register_tunnels never_blank attempts 0 guard tunnels).0
    ≡ refuses_with 1 tunnel_port_in_use
      ∷ accepts 1
      ∷ refuses_with 1 tunnel_rejected
      ∷ accepts 2
      ∷ refuses_with 3 tunnel_rejected
      ∷ []
unfolding register_tunnels insert supports_managed_configuration
results_test = refl

unknown_test :
    (issue_data_channel_binding
      (attempts 1).surroundings
      (register_tunnels never_blank attempts 0 guard tunnels).1
      (tcp 2 9)).0
    ≡ err unknown_tunnel
unfolding issue_data_channel_binding register_tunnels insert
unknown_test = refl

unavailable_test : (mark_unavailable guard).runtime.available ≡ false
unfolding mark_unavailable
unavailable_test = refl

register_tunnels-Answers_example :
    Answers tunnels
      (register_tunnels never_blank attempts 0 guard tunnels).0
      (register_tunnels never_blank attempts 0 guard tunnels).1
register_tunnels-Answers_example = register_tunnels-Answers never_blank attempts 0 guard tunnels
