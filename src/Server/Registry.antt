-- ===== src/Server/Registry.antt =====
-- crates/rustgos/src/registry.rs: `ClientRegistry`, which client is connected under which name. Every
-- method that locks the registry is one operation; `authenticate_data_channel`, which locks a session once
-- it has released the registry, is also given in its two parts. An `Arc<SessionRuntime>` is the number of the
-- generation in which the runtime was made, and the runtimes stand in the state under these numbers.
pub mod Invariant
pub mod Claims
pub mod Ownership
pub mod Steps
pub mod Release
mod Tests
use rustgo.Prelude.{
  ℕ, ◌+◌, ◌^◌, Bool, true, false, not, ◌&&◌, ◌||◌, Option, none, some, List, [], length, leb, ltb,
  ◌==◌, if◌then◌else◌, Result, ok, err,
}
use rustgo.Prelude.Bytes.{Bytes, eq_bytes, bytes_key}
use rustgo.Prelude.Dict.{Dict, get, insert, erase, modify, nat_key}
use rustgo.Protocol.Version.{ProtocolVersion}
use rustgo.Protocol.Payload.Tunnel.{DataChannelBind}
use rustgo.Transport.Binding.{ChannelBindingStore, is_some, new_store}
use rustgo.Transport.Binding as Binding
use rustgo.Server.Session.{
  RegistryError, invalid_configuration, already_connected, capacity_reached, binding,
  generation_exhausted, SessionRuntime, Surroundings, Redeemed, redeem_if_present, cancel,
}

-- `AuthenticatedClient`
pub record AuthenticatedClient : Type 0 where
  pub name : Bytes
  pub fingerprint : Bytes
  pub session_id : Bytes

pub record ActiveSession : Type 0 where
  pub name : Bytes
  pub session_id : Bytes

pub record RegistryState : Type 0 where
  pub active : Dict Bytes ActiveSession
  pub by_name : Dict Bytes ℕ
  pub next_observability_generation : ℕ
  pub runtimes : Dict ℕ SessionRuntime

-- The limits that the operations below read; the state behind the mutex is an argument of them.
pub record ClientRegistry : Type 0 where
  pub max_clients : ℕ
  pub binding_capacity : ℕ
  pub binding_ttl : ℕ

abbrev pub max_event_label_bytes : ℕ
max_event_label_bytes = 128

-- `next_observability_generation.checked_add(1)` of a u64
abbrev pub next_generation : ℕ → Option ℕ
next_generation n = if ltb (n + 1) (2 ^ 64) then some (n + 1) else none

-- Whether `AuthenticatedClientIdentity::from_server_authentication` takes the name and the generation.
abbrev pub is_observable : Bytes → (generation : ℕ) → Bool
is_observable name generation =
    not (length name == 0) && leb (length name) max_event_label_bytes && not (generation == 0)

abbrev pub new_runtime :
    ClientRegistry → AuthenticatedClient → ProtocolVersion → ChannelBindingStore → SessionRuntime
new_runtime registry identity protocol_version store = record {
  client = identity.name;
  fingerprint = identity.fingerprint;
  session_id = identity.session_id;
  bindings = record { store = store; pending_tcp = []; pending_udp = [] };
  cancellation = false;
  available = true;
  binding_ttl = registry.binding_ttl;
  protocol_version = protocol_version;
}

-- The registry with the new client.
abbrev pub claimed :
    AuthenticatedClient → SessionRuntime → (generation : ℕ) → RegistryState → RegistryState
claimed identity runtime generation state = record {
  active =
      insert state.active identity.fingerprint
        (record { name = identity.name; session_id = identity.session_id });
  by_name = insert state.by_name identity.name generation;
  next_observability_generation = generation;
  runtimes = insert state.runtimes generation runtime;
}

unfoldable pub claim_with_outbound :
    ClientRegistry
    → Surroundings
    → AuthenticatedClient
    → ProtocolVersion
    → RegistryState
    → Result RegistryError ℕ × RegistryState
unfolding get insert new_store
claim_with_outbound registry s identity protocol_version state =
    elim (new_store s.checked_add s.now identity.name identity.session_id registry.binding_capacity
      registry.binding_ttl) [
        | err e ↦ (err (binding e), state)
        | ok store ↦
            if is_some (get state.active identity.fingerprint)
              || is_some (get state.by_name identity.name)
            then (err already_connected, state)
            else if leb registry.max_clients (length state.active)
            then (err capacity_reached, state)
            else elim (next_generation state.next_observability_generation) [
              | none ↦ (err generation_exhausted, state)
              | some generation ↦
                  if not (is_observable identity.name generation)
                  then (err invalid_configuration, state)
                  else (
                    ok generation,
                    claimed identity (new_runtime registry identity protocol_version store)
                        generation state,
                  )
            ]
      ]

-- Whether the state has the identity's session under its fingerprint.
abbrev pub owns_entry : Option ActiveSession → AuthenticatedClient → Bool
owns_entry none identity = false
owns_entry (some active) identity =
    eq_bytes active.name identity.name && eq_bytes active.session_id identity.session_id

unfoldable pub release : AuthenticatedClient → RegistryState → RegistryState
unfolding get erase eq_bytes
release identity state =
    if owns_entry (get state.active identity.fingerprint) identity
    then record state {
      active = erase state.active identity.fingerprint;
      by_name = erase state.by_name identity.name;
    }
    else state

-- `state.by_name.get(name)`, and the runtime that it points to.
abbrev pub follow : Option ℕ → RegistryState → Option SessionRuntime
follow none state = none
follow (some r) state = get state.runtimes r

unfoldable pub runtime_of : RegistryState → (name : Bytes) → Option SessionRuntime
unfolding get
runtime_of state name = follow (get state.by_name name) state

abbrev pub is_available : Option SessionRuntime → Bool
is_available none = false
is_available (some runtime) = runtime.available

unfoldable pub is_active_session : RegistryState → AuthenticatedClient → Bool
unfolding runtime_of eq_bytes
is_active_session state identity =
    owns_entry (get state.active identity.fingerprint) identity
    && is_available (runtime_of state identity.name)

unfoldable pub terminate_by_name : (name : Bytes) → RegistryState → Bool × RegistryState
unfolding get modify
terminate_by_name name state = elim (get state.by_name name) [
  | none ↦ (false, state)
  | some r ↦ (
    true,
    record state {
      runtimes = modify state.runtimes r (λ runtime. record runtime { cancellation = true });
    },
  )
]

-- What `authenticate_data_channel` answers to what the session found.
abbrev pub or_rejected : Option Redeemed → Redeemed
or_rejected none = err (binding Binding.rejected)
or_rejected (some answer) = answer

-- What `authenticate_data_channel` does once it has released the registry's lock, with the runtime that it
-- found: other operations may come between.
unfoldable pub authenticate_runtime :
    (now : ℕ)
    → DataChannelBind
    → ProtocolVersion
    → (runtime : ℕ) → RegistryState
    → Redeemed × RegistryState
unfolding get modify redeem_if_present eq_bytes
authenticate_runtime now request protocol_version r state = elim (get state.runtimes r) [
  | none ↦ (err (binding Binding.rejected), state)
  | some runtime ↦
      if not (eq_bytes runtime.session_id request.session_id)
      then (err (binding Binding.rejected), state)
      else if not runtime.available
      then (err (binding Binding.rejected), state)
      else (let (answer, left) = redeem_if_present now runtime request protocol_version in
          (or_rejected answer, record state { runtimes = modify state.runtimes r (λ _. left) }))
]

-- The whole of it, with no other operation between.
unfoldable pub authenticate_data_channel :
    (now : ℕ) → DataChannelBind → ProtocolVersion → RegistryState → Redeemed × RegistryState
unfolding get authenticate_runtime
authenticate_data_channel now request protocol_version state =
    elim (get state.by_name request.client_name) [
      | none ↦ (err (binding Binding.rejected), state)
      | some r ↦ authenticate_runtime now request protocol_version r state
    ]
