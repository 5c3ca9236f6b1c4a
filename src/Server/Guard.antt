-- ===== src/Server/Guard.antt =====
-- crates/rustgos/src/registry.rs: `ControlSessionGuard`, the tunnels that a connected client has registered.
-- Whether a socket can be bound is decided outside, as is what `str::trim` takes for blank: both are
-- arguments. The fields of the registry that the guard reads stand in it.
pub mod Registration
mod Tests
use rustgo.Prelude.{
  ℕ, ◌+◌, Bool, true, false, not, ◌&&◌, ◌||◌, Option, none, some, List, [], ◌∷◌, ◌++◌, length, leb,
  ◌==◌, if◌then◌else◌, Result, ok, err,
}
use rustgo.Prelude.Bytes.{Bytes, eq_bytes}
use rustgo.Prelude.Dict.{Dict, get, insert, nat_key}
use rustgo.Protocol.Version.{ProtocolVersion, ProtocolErrorCode, supports_managed_configuration}
use rustgo.Protocol.Payload.Tunnel.{TunnelRegistration, TunnelResult}
use rustgo.Transport.Binding.{ChannelKind, tcp, udp, is_some, issue}
use rustgo.Server.Session.{
  IoErrorKind, addr_in_use, permission_denied, other_kind, RegistryError, unknown_tunnel,
  invalid_tunnel_registration, udp_bind_address_required, binding, io, SessionRuntime, Surroundings,
  prepare_udp, cancel,
}

abbrev pub tunnel_rejected : ProtocolErrorCode
tunnel_rejected = 8

abbrev pub udp_bind_address_required_code : ProtocolErrorCode
udp_bind_address_required_code = 10

abbrev pub tunnel_port_in_use : ProtocolErrorCode
tunnel_port_in_use = 11

abbrev pub tunnel_permission_denied : ProtocolErrorCode
tunnel_permission_denied = 12

-- `TunnelProtocol`
abbrev pub tunnel_tcp : ℕ
tunnel_tcp = 1

abbrev pub tunnel_udp : ℕ
tunnel_udp = 2

pub data ListenerLease : Type 0 where
  tcp_listener : (tunnel_id : ℕ) → ListenerLease
  udp_listener : (tunnel_id : ℕ) → (pending : ℕ × Bytes) → ListenerLease

pub record ControlSessionGuard : Type 0 where
  pub max_tunnels_per_client : ℕ
  pub udp_listener_ip : Option Bytes
  pub runtime : SessionRuntime
  pub listeners : List ListenerLease
  pub tunnel_ids : Dict ℕ ℕ
  pub tunnel_names : List Bytes
  pub unavailable : Bool

-- What a registration meets: how the binding of its socket fails, if it does, what its runtime draws,
-- and the name of the channel that it waits for.
pub record Attempt : Type 0 where
  pub failure : Option IoErrorKind
  pub surroundings : Surroundings
  pub destination : ℕ

unfoldable pub contains_name : List Bytes → Bytes → Bool
unfolding eq_bytes
contains_name [] name = false
contains_name (n ∷ ns) name = let rest = contains_name ns name in eq_bytes n name || rest

unfoldable pub bind_listener :
    Attempt
    → ControlSessionGuard
    → TunnelRegistration
    → Result RegistryError ListenerLease × SessionRuntime
unfolding prepare_udp
bind_listener attempt self tunnel =
    if tunnel.protocol == tunnel_tcp
    then (elim attempt.failure [
      | some kind ↦ (err (io kind), self.runtime)
      | none ↦ (ok (tcp_listener tunnel.tunnel_id), self.runtime)
    ])
    else elim self.udp_listener_ip [
      | none ↦ (err udp_bind_address_required, self.runtime)
      | some ip ↦ elim attempt.failure [
        | some kind ↦ (err (io kind), self.runtime)
        | none ↦
            let (answer, runtime) =
              prepare_udp attempt.surroundings self.runtime tunnel.tunnel_id attempt.destination in
            elim answer [
              | err e ↦ (err e, runtime)
              | ok pending ↦ (ok (udp_listener tunnel.tunnel_id pending), runtime)
            ]
      ]
    ]

-- The conditions under which no listener is bound at all.
abbrev pub refuses : (is_blank : Bytes → Bool) → ControlSessionGuard → TunnelRegistration → Bool
refuses is_blank self tunnel =
    leb self.max_tunnels_per_client (length self.listeners)
    || tunnel.tunnel_id == 0
    || tunnel.remote_port == 0
    || is_blank tunnel.name
    || is_some (get self.tunnel_ids tunnel.tunnel_id)
    || contains_name self.tunnel_names tunnel.name

abbrev pub code_of : ProtocolVersion → RegistryError → ProtocolErrorCode
code_of version (io addr_in_use) =
    if supports_managed_configuration version then tunnel_port_in_use else tunnel_rejected
code_of version (io permission_denied) =
    if supports_managed_configuration version then tunnel_permission_denied else tunnel_rejected
code_of version udp_bind_address_required = udp_bind_address_required_code
code_of version _ = tunnel_rejected

-- The binding that one turn of `register_tunnels` makes.
abbrev pub binding_of :
    (is_blank : Bytes → Bool)
    → Attempt
    → ControlSessionGuard
    → TunnelRegistration
    → Result RegistryError ListenerLease × SessionRuntime
binding_of is_blank attempt self tunnel =
    if refuses is_blank self tunnel
    then (err invalid_tunnel_registration, self.runtime)
    else bind_listener attempt self tunnel

-- What the turn does with it.
abbrev pub record_binding :
    Result RegistryError ListenerLease × SessionRuntime
    → ControlSessionGuard
    → TunnelRegistration
    → TunnelResult × ControlSessionGuard
record_binding (ok lease, runtime) self tunnel = (
  record { tunnel_id = tunnel.tunnel_id; accepted = true; error = none },
  record self {
    runtime = runtime;
    tunnel_ids = insert self.tunnel_ids tunnel.tunnel_id tunnel.protocol;
    tunnel_names = tunnel.name ∷ self.tunnel_names;
    listeners = self.listeners ++ lease ∷ [];
  },
)
record_binding (err e, runtime) self tunnel = (
  record {
    tunnel_id = tunnel.tunnel_id;
    accepted = false;
    error = some (code_of self.runtime.protocol_version e);
  },
  record self { runtime = runtime },
)

unfoldable pub register_tunnel :
    (is_blank : Bytes → Bool)
    → Attempt
    → ControlSessionGuard
    → TunnelRegistration
    → TunnelResult × ControlSessionGuard
unfolding bind_listener contains_name
register_tunnel is_blank attempt self tunnel =
    record_binding (binding_of is_blank attempt self tunnel) self tunnel

-- The loop of `register_tunnels`; the attempts are counted from `turn`.
unfoldable pub register_tunnels :
    (is_blank : Bytes → Bool)
    → (attempts : ℕ → Attempt) → (turn : ℕ) → ControlSessionGuard
    → List TunnelRegistration
    → List TunnelResult × ControlSessionGuard
unfolding register_tunnel
register_tunnels is_blank attempts turn self [] = ([], self)
register_tunnels is_blank attempts turn self (tunnel ∷ tunnels) =
    let (result, next) = register_tunnel is_blank (attempts turn) self tunnel in
    let (results, last) = register_tunnels is_blank attempts (turn + 1) next tunnels in
    (result ∷ results, last)

abbrev pub tunnel_of : ChannelKind → ℕ
tunnel_of (tcp tunnel_id connection_id) = tunnel_id
tunnel_of (udp tunnel_id channel_id) = tunnel_id

abbrev pub required : ChannelKind → ℕ
required (tcp tunnel_id connection_id) = tunnel_tcp
required (udp tunnel_id channel_id) = tunnel_udp

abbrev pub is_protocol : Option ℕ → ℕ → Bool
is_protocol none p = false
is_protocol (some q) p = q == p

unfoldable pub issue_data_channel_binding :
    Surroundings
    → ControlSessionGuard
    → ChannelKind
    → Result RegistryError Bytes × ControlSessionGuard
unfolding get issue
issue_data_channel_binding s self kind =
    if not (is_protocol (get self.tunnel_ids (tunnel_of kind)) (required kind))
    then (err unknown_tunnel, self)
    else (let bindings = self.runtime.bindings in
        let (answer, store) = issue s.checked_add s.tokens s.now bindings.store kind in
        let left = record self {
          runtime = record self.runtime { bindings = record bindings { store = store } };
        } in
        elim answer [ err e ↦ (err (binding e), left) | ok token ↦ (ok token, left) ])

unfoldable pub mark_unavailable : ControlSessionGuard → ControlSessionGuard
unfolding cancel
mark_unavailable self =
    if self.unavailable
    then self
    else record self { runtime = cancel self.runtime; unavailable = true }
