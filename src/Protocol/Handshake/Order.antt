-- ===== src/Protocol/Handshake/Order.antt =====
-- The order of the handshake: what an active session has behind it, and what no message can do.
use rustgo.Prelude.{
  ℕ, ◌≡◌, ◌≢◌, refl, sym, inl, inr, Bool, true, false, if◌then◌else◌, ok, List, [], ◌∷◌, arith,
  Option, none, some, >>=-eq-ok, Bool-cases,
}
use rustgo.Prelude.Bytes.{Bytes}
use rustgo.Protocol.Version.{ProtocolVersion}
use rustgo.Protocol.Payload.Tunnel.{
  ClientHello, ServerChallenge, ClientAuthenticate, AuthResult, RegisterTunnels,
}
use rustgo.Protocol.Message.{
  Message, client_hello, server_challenge, client_authenticate, auth_result, register_tunnels,
}
use rustgo.Protocol.Handshake.{
  ControlMessageDirection, ClientHandshakeState, awaiting_hello, awaiting_challenge,
  awaiting_authenticate, awaiting_auth_result, awaiting_tunnel_registration, active, rejected, new,
  transition, transition_control, run, run_control,
}

abbrev pub session : ClientHandshakeState → Option Bytes
session awaiting_hello = none
session awaiting_challenge = none
session (awaiting_authenticate s) = some s
session (awaiting_auth_result s) = some s
session (awaiting_tunnel_registration s) = some s
session (active s) = some s
session rejected = none

-- How far the handshake has come.
abbrev pub stage : ClientHandshakeState → ℕ
stage awaiting_hello = 0
stage awaiting_challenge = 1
stage (awaiting_authenticate s) = 2
stage (awaiting_auth_result s) = 3
stage (awaiting_tunnel_registration s) = 4
stage (active s) = 5
stage rejected = 6

-- The messages of managed configuration and telemetry, which only `transition_control` accepts.
abbrev pub is_side : Message → Bool
is_side (Message.managed_config_request _) = true
is_side (Message.managed_config_snapshot _) = true
is_side (Message.managed_config_report _) = true
is_side (Message.managed_config_update _) = true
is_side (Message.managed_config_update_result _) = true
is_side (Message.telemetry_report _) = true
is_side _ = false

abbrev pub main_messages : List (ControlMessageDirection × Message) → List Message
main_messages [] = []
main_messages ((_, m) ∷ ms) = let rest = main_messages ms in if is_side m then rest else m ∷ rest

-- The messages of a connection that came to be active with session `q`: the five of the
-- handshake, in their order, with an accepted authentication and the session of the challenge.
pub record Handshook (ms : List Message) (q : Bytes) : Type 0 where
  pub hello : ClientHello
  pub challenge : ServerChallenge
  pub authenticate : ClientAuthenticate
  pub result : AuthResult
  pub tunnels : RegisterTunnels
  pub rest : List Message
  pub order :
      ms
      ≡ client_hello hello
        ∷ server_challenge challenge
        ∷ client_authenticate authenticate
        ∷ auth_result result
        ∷ register_tunnels tunnels
        ∷ rest
  pub accepted : result.accepted ≡ true
  pub session_eq : q ≡ challenge.session_id

from_active :
    (q : Bytes) (m : Message) (t : ClientHandshakeState)
    → transition (active q) m ≡ ok t
    → t ≡ active q
unfolding transition
from_active q (Message.heartbeat _) t h = ground arith
from_active q _ t h = ground arith

run-active_same : (q r : Bytes) (ms : List Message) → run (active q) ms ≡ ok (active r) → r ≡ q
unfolding run
run-active_same q r [] h = ground arith
run-active_same q r (m ∷ ms) h =
    let (t, step, tail) = >>=-eq-ok (transition (active q) m) (λ next. run next ms) h in
    run-active_same q r ms (rw (← from_active q m t step) tail)

run-rejected : (r : Bytes) (ms : List Message) → run rejected ms ≢ ok (active r)
unfolding run transition
run-rejected r [] h = cc
run-rejected r (m ∷ ms) h = cc

run-registration :
    (q r : Bytes) (ms : List Message)
    → run (awaiting_tunnel_registration q) ms ≡ ok (active r)
    → (tunnels : RegisterTunnels) × (rest : List Message) × (ms ≡ register_tunnels tunnels ∷ rest)
      × (r ≡ q)
unfolding run transition
run-registration q r [] h = cc
run-registration q r (register_tunnels t ∷ ms) h = (t, ms, refl, run-active_same q r ms h)
run-registration q r (_ ∷ ms) h = cc

run-result :
    (q r : Bytes) (ms : List Message)
    → run (awaiting_auth_result q) ms ≡ ok (active r)
    → (result : AuthResult) × (rest : List Message) × (ms ≡ auth_result result ∷ rest)
      × (result.accepted ≡ true)
      × (run (awaiting_tunnel_registration q) rest ≡ ok (active r))
unfolding run transition
run-result q r [] h = cc
run-result q r (auth_result a ∷ ms) h = elim (Bool-cases a.accepted) [
  | inl accepted ↦ (a, ms, refl, accepted, rw (accepted, transition, run) at h)
  | inr refused ↦ absurd (run-rejected r ms (rw (refused, transition, run) at h))
]
run-result q r (_ ∷ ms) h = cc

run-authenticate :
    (q r : Bytes) (ms : List Message)
    → run (awaiting_authenticate q) ms ≡ ok (active r)
    → (a : ClientAuthenticate) × (rest : List Message) × (ms ≡ client_authenticate a ∷ rest)
      × (run (awaiting_auth_result q) rest ≡ ok (active r))
unfolding run transition
run-authenticate q r [] h = cc
run-authenticate q r (client_authenticate a ∷ ms) h = (a, ms, refl, h)
run-authenticate q r (_ ∷ ms) h = cc

run-challenge :
    (r : Bytes) (ms : List Message)
    → run awaiting_challenge ms ≡ ok (active r)
    → (c : ServerChallenge) × (rest : List Message) × (ms ≡ server_challenge c ∷ rest)
      × (run (awaiting_authenticate c.session_id) rest ≡ ok (active r))
unfolding run transition
run-challenge r [] h = cc
run-challenge r (server_challenge c ∷ ms) h = (c, ms, refl, h)
run-challenge r (_ ∷ ms) h = cc

run-hello :
    (r : Bytes) (ms : List Message)
    → run awaiting_hello ms ≡ ok (active r)
    → (a : ClientHello) × (rest : List Message) × (ms ≡ client_hello a ∷ rest)
      × (run awaiting_challenge rest ≡ ok (active r))
unfolding run transition
run-hello r [] h = cc
run-hello r (client_hello a ∷ ms) h = (a, ms, refl, h)
run-hello r (_ ∷ ms) h = cc

run-Handshook : (r : Bytes) (ms : List Message) → run new ms ≡ ok (active r) → Handshook ms r
run-Handshook r ms h =
    let (a, ms1, e1, h1) = run-hello r ms h in
    let (c, ms2, e2, h2) = run-challenge r ms1 h1 in
    let (b, ms3, e3, h3) = run-authenticate c.session_id r ms2 h2 in
    let (result, ms4, e4, accepted, h4) = run-result c.session_id r ms3 h3 in
    let (t, rest, e5, same) = run-registration c.session_id r ms4 h4 in
    record {
      hello = a;
      challenge = c;
      authenticate = b;
      result = result;
      tunnels = t;
      rest = rest;
      order = cc;
      accepted = accepted;
      session_eq = same;
    }

-- A side message leaves the state as it is, and any other message is for `transition`.
pub side_stays :
    (s t : ClientHandshakeState) (v : ProtocolVersion) (d : ControlMessageDirection) (m : Message)
    → is_side m ≡ true
    → transition_control s v d m ≡ ok t
    → t ≡ s
unfolding transition_control
side_stays s t v d (Message.managed_config_request _) side h = ground arith
side_stays s t v d _ side h = ground arith

pub main_transition :
    (s : ClientHandshakeState) (v : ProtocolVersion) (d : ControlMessageDirection) (m : Message)
    → is_side m ≡ false
    → transition_control s v d m ≡ transition s m
unfolding transition_control
main_transition s v d (Message.managed_config_request _) side = cc
main_transition s v d (Message.managed_config_snapshot _) side = cc
main_transition s v d _ side = ground arith

run-main_messages :
    (v : ProtocolVersion) (s t : ClientHandshakeState)
    (ms : List (ControlMessageDirection × Message))
    → run_control v s ms ≡ ok t
    → run s (main_messages ms) ≡ ok t
unfolding run_control run
run-main_messages v s t [] h = h
run-main_messages v s t ((d, m) ∷ ms) h =
    let (u, step, tail) =
      >>=-eq-ok (transition_control s v d m) (λ next. run_control v next ms) h in
    let rest = run-main_messages v u t ms tail in
    elim (Bool-cases (is_side m)) [
      | inl side ↦ rw side (rw (side_stays s u v d m side step) at rest)
      | inr main ↦ rw (main, sym (main_transition s v d m main), step) rest
    ]

-- A connection is active only after the whole handshake: without the messages of managed
-- configuration and telemetry, what it has accepted begins with a hello, a challenge, an
-- authentication, an accepted result and a registration of tunnels, and its session is that of the
-- challenge.
pub run_control-Handshook :
    (v : ProtocolVersion) (ms : List (ControlMessageDirection × Message)) (q : Bytes)
    → run_control v new ms ≡ ok (active q)
    → Handshook (main_messages ms) q
run_control-Handshook v ms q h =
    run-Handshook q (main_messages ms) (run-main_messages v new (active q) ms h)
