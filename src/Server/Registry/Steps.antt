-- ===== src/Server/Registry/Steps.antt =====
-- Whatever is done with a registry, its invariant and its bound stay.
use rustgo.Prelude.{
  some-injective, ℕ, ◌≤◌, Bool, true, false, not, some, List, [], ◌∷◌, length, if◌then◌else◌, ◌≡◌,
  inl, inr, refl, ◌∙◌, sym, ap, Bool-cases, Option-cases, arith,
}
use rustgo.Prelude.Bytes.{Bytes, eq_bytes, bytes_key}
use rustgo.Prelude.Dict.{get, modify, nat_key, length-insert, length-erase_le}
use rustgo.Protocol.Version.{ProtocolVersion}
use rustgo.Protocol.Payload.Tunnel.{DataChannelBind}
use rustgo.Server.Session.{SessionRuntime, Surroundings, redeem_if_present}
use rustgo.Server.Session.Steps.{
  Serves, SessionStep, session_step, session_step-Serves, redeem_if_present-Serves,
}
use rustgo.Server.Registry.{
  AuthenticatedClient, RegistryState, ClientRegistry, new_runtime, claim_with_outbound, owns_entry,
  release, terminate_by_name, authenticate_runtime, authenticate_data_channel,
}
use rustgo.Server.Registry.Invariant.{IsRegistry, Keeps, nobody-IsRegistry, modified-IsRegistry}
use rustgo.Server.Registry.Claims.{claim-cases, claimed-IsRegistry}
use rustgo.Server.Registry.Ownership.{release-IsRegistry}

pub data RegistryStep : Type 0 where
  claim : Surroundings → AuthenticatedClient → ProtocolVersion → RegistryStep
  let_go : AuthenticatedClient → RegistryStep
  terminate : (name : Bytes) → RegistryStep
  on_session : (runtime : ℕ) → SessionStep → RegistryStep
  authenticate : (now : ℕ) → DataChannelBind → ProtocolVersion → RegistryStep
  authenticate_found : (now : ℕ) → DataChannelBind → ProtocolVersion → (runtime : ℕ) → RegistryStep

unfoldable pub registry_step : ClientRegistry → RegistryState → RegistryStep → RegistryState
unfolding claim_with_outbound release terminate_by_name authenticate_data_channel
    authenticate_runtime session_step modify
registry_step registry state (claim s identity version) =
    (claim_with_outbound registry s identity version state).1
registry_step registry state (let_go identity) = release identity state
registry_step registry state (terminate name) = (terminate_by_name name state).1
registry_step registry state (on_session runtime x) = record state {
  runtimes = modify state.runtimes runtime (λ self. session_step self x);
}
registry_step registry state (authenticate now request version) =
    (authenticate_data_channel now request version state).1
registry_step registry state (authenticate_found now request version r) =
    (authenticate_runtime now request version r state).1

unfoldable pub registry_run : ClientRegistry → RegistryState → List RegistryStep → RegistryState
unfolding registry_step
registry_run registry state [] = state
registry_run registry state (x ∷ xs) = registry_run registry (registry_step registry state x) xs

-- The registry as the server starts it.
abbrev pub empty_registry : RegistryState
empty_registry = record {
  active = [];
  by_name = [];
  next_observability_generation = 0;
  runtimes = [];
}

session_step-Keeps :
    (state : RegistryState) (runtime : ℕ) (x : SessionStep)
    → Keeps state runtime (λ self. session_step self x)
unfolding Keeps
session_step-Keeps state runtime x old at = session_step-Serves old x

terminate_by_name-IsRegistry :
    (name : Bytes) (state : RegistryState)
    → IsRegistry state
    → IsRegistry (terminate_by_name name state).1
unfolding terminate_by_name Keeps Serves
terminate_by_name-IsRegistry name state v = elim (Option-cases (get state.by_name name)) [
  | inl missing ↦ rw (terminate_by_name, missing) v
  | inr (r, at) ↦
      rw (terminate_by_name, at)
        (modified-IsRegistry state r (λ runtime. record runtime { cancellation = true }) v
          (λ old is. (refl, refl, refl)))
]

redeemed-Keeps :
    (now : ℕ) (request : DataChannelBind) (version : ProtocolVersion) (state : RegistryState)
    (r : ℕ) (runtime : SessionRuntime)
    → get state.runtimes r ≡ some runtime
    → Keeps state r (λ _. (redeem_if_present now runtime request version).1)
unfolding Keeps Serves
redeemed-Keeps now request version state r runtime at old is =
    let same : runtime ≡ old = some-injective (sym at ∙ is) in
    let (f, n, s) = redeem_if_present-Serves now runtime request version in
    (f ∙ ap (λ x. x.fingerprint) same, n ∙ ap (λ x. x.client) same, s ∙ ap (λ x. x.session_id) same)

if-IsRegistry :
    {A : Type 0} (b : Bool) (x y : A × RegistryState)
    → IsRegistry x.1
    → IsRegistry y.1
    → IsRegistry (if b then x else y).1
if-IsRegistry true x y p q = p
if-IsRegistry false x y p q = q

authenticate_runtime-IsRegistry :
    (now : ℕ) (request : DataChannelBind) (version : ProtocolVersion) (r : ℕ)
    (state : RegistryState)
    → IsRegistry state
    → IsRegistry (authenticate_runtime now request version r state).1
unfolding authenticate_runtime
authenticate_runtime-IsRegistry now request version r state v =
    elim (Option-cases (get state.runtimes r)) [
      | inl dangling ↦ rw (authenticate_runtime, dangling) v
      | inr (runtime, at) ↦ elim (Bool-cases (eq_bytes runtime.session_id request.session_id)) [
        | inr other ↦ rw (authenticate_runtime, at, other) v
        | inl same ↦
            rw (authenticate_runtime, at, same)
              (if-IsRegistry (not runtime.available) _ _ v (
                modified-IsRegistry state r _ v
                  (redeemed-Keeps now request version state r runtime at)))
      ]
    ]

authenticate_data_channel-IsRegistry :
    (now : ℕ) (request : DataChannelBind) (version : ProtocolVersion) (state : RegistryState)
    → IsRegistry state
    → IsRegistry (authenticate_data_channel now request version state).1
unfolding authenticate_data_channel
authenticate_data_channel-IsRegistry now request version state v =
    elim (Option-cases (get state.by_name request.client_name)) [
      | inl missing ↦ rw (authenticate_data_channel, missing) v
      | inr (r, by) ↦
          rw (authenticate_data_channel, by)
            (authenticate_runtime-IsRegistry now request version r state v)
    ]

claim_with_outbound-IsRegistry :
    (registry : ClientRegistry) (s : Surroundings) (identity : AuthenticatedClient)
    (version : ProtocolVersion) (state : RegistryState)
    → IsRegistry state
    → IsRegistry (claim_with_outbound registry s identity version state).1
unfolding Serves
claim_with_outbound-IsRegistry registry s identity version state v =
    elim (claim-cases registry s identity version state) [
      | inl (e, same) ↦ rw same v
      | inr (store, generation, new, unnamed, _, next, same) ↦ rw same (
          claimed-IsRegistry identity (new_runtime registry identity version store) generation state
            v new unnamed next (refl, refl, refl))
    ]

registry_step-IsRegistry :
    (registry : ClientRegistry) (state : RegistryState) (x : RegistryStep)
    → IsRegistry state
    → IsRegistry (registry_step registry state x)
unfolding registry_step
registry_step-IsRegistry registry state (claim s identity version) v =
    claim_with_outbound-IsRegistry registry s identity version state v
registry_step-IsRegistry registry state (let_go identity) v = release-IsRegistry identity state v
registry_step-IsRegistry registry state (terminate name) v =
    terminate_by_name-IsRegistry name state v
registry_step-IsRegistry registry state (on_session runtime x) v =
    modified-IsRegistry state runtime (λ self. session_step self x) v
      (session_step-Keeps state runtime x)
registry_step-IsRegistry registry state (authenticate now request version) v =
    authenticate_data_channel-IsRegistry now request version state v
registry_step-IsRegistry registry state (authenticate_found now request version r) v =
    authenticate_runtime-IsRegistry now request version r state v

registry_run-kept :
    (registry : ClientRegistry) (xs : List RegistryStep) (state : RegistryState)
    → IsRegistry state
    → IsRegistry (registry_run registry state xs)
unfolding registry_run
registry_run-kept registry [] state v = v
registry_run-kept registry (x ∷ xs) state v =
    registry_run-kept registry xs (registry_step registry state x)
      (registry_step-IsRegistry registry state x v)

-- Whatever is done with a new registry: the runtime that stands under a name is that of the one client that is
-- active under the runtime's fingerprint, with this name and the runtime's session, and every active
-- client has such a runtime.
pub registry_run-IsRegistry :
    (registry : ClientRegistry) (xs : List RegistryStep)
    → IsRegistry (registry_run registry empty_registry xs)
registry_run-IsRegistry registry xs = registry_run-kept registry xs empty_registry nobody-IsRegistry

release-bound :
    (state : RegistryState) (identity : AuthenticatedClient) (n : ℕ)
    → length state.active ≤ n
    → length (release identity state).active ≤ n
unfolding release
release-bound state identity n h =
    elim (Bool-cases (owns_entry (get state.active identity.fingerprint) identity)) [
      | inr other ↦ rw (release, other) h
      | inl own ↦
          rw (release, own) (omega (arith, length-erase_le state.active identity.fingerprint))
    ]

terminate_by_name-bound :
    (state : RegistryState) (name : Bytes) (n : ℕ)
    → length state.active ≤ n
    → length (terminate_by_name name state).1.active ≤ n
unfolding terminate_by_name
terminate_by_name-bound state name n h = elim (Option-cases (get state.by_name name)) [
  | inl missing ↦ rw (terminate_by_name, missing) h
  | inr (r, at) ↦ rw (terminate_by_name, at) h
]

if-bound :
    {A : Type 0} (b : Bool) (x y : A × RegistryState) (n : ℕ)
    → length x.1.active ≤ n
    → length y.1.active ≤ n
    → length (if b then x else y).1.active ≤ n
if-bound true x y n p q = p
if-bound false x y n p q = q

authenticate_runtime-bound :
    (state : RegistryState) (now : ℕ) (request : DataChannelBind) (version : ProtocolVersion)
    (r n : ℕ)
    → length state.active ≤ n
    → length (authenticate_runtime now request version r state).1.active ≤ n
unfolding authenticate_runtime
authenticate_runtime-bound state now request version r n h =
    elim (Option-cases (get state.runtimes r)) [
      | inl dangling ↦ rw (authenticate_runtime, dangling) h
      | inr (runtime, at) ↦ elim (Bool-cases (eq_bytes runtime.session_id request.session_id)) [
        | inr other ↦ rw (authenticate_runtime, at, other) h
        | inl same ↦
            rw (authenticate_runtime, at, same) (if-bound (not runtime.available) _ _ n h h)
      ]
    ]

authenticate-bound :
    (state : RegistryState) (now : ℕ) (request : DataChannelBind) (version : ProtocolVersion)
    (n : ℕ)
    → length state.active ≤ n
    → length (authenticate_data_channel now request version state).1.active ≤ n
unfolding authenticate_data_channel
authenticate-bound state now request version n h =
    elim (Option-cases (get state.by_name request.client_name)) [
      | inl missing ↦ rw (authenticate_data_channel, missing) h
      | inr (r, by) ↦
          rw (authenticate_data_channel, by)
            (authenticate_runtime-bound state now request version r n h)
    ]

claim-bound :
    (registry : ClientRegistry) (s : Surroundings) (identity : AuthenticatedClient)
    (version : ProtocolVersion) (state : RegistryState)
    → length state.active ≤ registry.max_clients
    → length (claim_with_outbound registry s identity version state).1.active ≤ registry.max_clients
claim-bound registry s identity version state h =
    elim (claim-cases registry s identity version state) [
      | inl (e, same) ↦ rw same h
      | inr (store, n, new, unnamed, room, next, same) ↦
          rw (same, length-insert state.active identity.fingerprint _ new) (omega (arith, room))
    ]

registry_step-bound :
    (registry : ClientRegistry) (state : RegistryState) (x : RegistryStep)
    → length state.active ≤ registry.max_clients
    → length (registry_step registry state x).active ≤ registry.max_clients
unfolding registry_step
registry_step-bound registry state (claim s identity version) h =
    claim-bound registry s identity version state h
registry_step-bound registry state (let_go identity) h =
    release-bound state identity registry.max_clients h
registry_step-bound registry state (terminate name) h =
    terminate_by_name-bound state name registry.max_clients h
registry_step-bound registry state (on_session runtime x) h = h
registry_step-bound registry state (authenticate now request version) h =
    authenticate-bound state now request version registry.max_clients h
registry_step-bound registry state (authenticate_found now request version r) h =
    authenticate_runtime-bound state now request version r registry.max_clients h

registry_run-bounded :
    (registry : ClientRegistry) (xs : List RegistryStep) (state : RegistryState)
    → length state.active ≤ registry.max_clients
    → length (registry_run registry state xs).active ≤ registry.max_clients
unfolding registry_run
registry_run-bounded registry [] state h = h
registry_run-bounded registry (x ∷ xs) state h =
    registry_run-bounded registry xs (registry_step registry state x)
      (registry_step-bound registry state x h)

-- Whatever is done with a new registry, it has at most `max_clients` active clients.
pub registry_run-bound :
    (registry : ClientRegistry) (xs : List RegistryStep)
    → length (registry_run registry empty_registry xs).active ≤ registry.max_clients
registry_run-bound registry xs = registry_run-bounded registry xs empty_registry (omega arith)
