-- ===== src/Server/Registry/Claims.antt =====
-- `claim_with_outbound` lets a client in that is not there yet, or changes nothing.
use rustgo.Prelude.{
  ℕ, ◌+◌, ◌<◌, none, length, leb, ok, err, Result-cases, ◌≡◌, ◌⊎◌, inl, inr, refl, ◌∙◌, sym, ap,
  Bool-cases, Option-cases, arith,
}
use rustgo.Prelude.Bytes.{Bytes, bytes_key}
use rustgo.Prelude.Dict.{
  get, nat_key, get-insert_same, get-insert_old, get-insert-cases, get-insert, insert-IsDict,
}
use rustgo.Protocol.Version.{ProtocolVersion}
use rustgo.Transport.Binding.{ChannelBindingStore, new_store}
use rustgo.Server.Session.{
  RegistryError, binding, already_connected, capacity_reached, generation_exhausted,
  invalid_configuration, SessionRuntime, Surroundings,
}
use rustgo.Server.Session.Steps.{Serves}
use rustgo.Server.Registry.{
  AuthenticatedClient, RegistryState, ClientRegistry, next_generation, is_observable, new_runtime,
  claimed, claim_with_outbound,
}
use rustgo.Server.Registry.Invariant.{IsRegistry}

-- How a claim ends: the state is as it was, or the client is new in it.
pub claim-cases :
    (registry : ClientRegistry) (s : Surroundings) (identity : AuthenticatedClient)
    (version : ProtocolVersion) (state : RegistryState)
    → ((e : RegistryError) × (claim_with_outbound registry s identity version state
          ≡ (err e, state)))
      ⊎ ((store : ChannelBindingStore) × (generation : ℕ) × (get state.active identity.fingerprint
            ≡ none)
          × (get state.by_name identity.name ≡ none)
          × (length state.active < registry.max_clients)
          × (generation ≡ state.next_observability_generation + 1)
          × (claim_with_outbound registry s identity version state ≡ (
            ok generation,
            claimed identity (new_runtime registry identity version store) generation state,
          )))
unfolding claim_with_outbound
claim-cases registry s identity version state =
    elim (Result-cases (
      new_store s.checked_add s.now identity.name identity.session_id registry.binding_capacity
        registry.binding_ttl)) [
          | inr (e, failed) ↦ inl (binding e, rw (claim_with_outbound, failed) refl)
          | inl (store, made) ↦ elim (Option-cases (get state.active identity.fingerprint)) [
            | inr (a, connected) ↦
                inl (already_connected, rw (claim_with_outbound, made, connected) refl)
            | inl new ↦ elim (Option-cases (get state.by_name identity.name)) [
              | inr (r, named) ↦
                  inl (already_connected, rw (claim_with_outbound, made, new, named) refl)
              | inl unnamed ↦ elim (Bool-cases (leb registry.max_clients (length state.active))) [
                | inl full ↦
                    inl (capacity_reached, rw (claim_with_outbound, made, new, unnamed, full) refl)
                | inr room ↦
                    elim (Option-cases (next_generation state.next_observability_generation)) [
                      | inl exhausted ↦ inl (
                        generation_exhausted,
                        rw (claim_with_outbound, made, new, unnamed, room, exhausted) refl,
                      )
                      | inr (generation, next) ↦
                          elim (Bool-cases (is_observable identity.name generation)) [
                            | inr bad ↦ inl (
                              invalid_configuration,
                              rw (claim_with_outbound, made, new, unnamed, room, next, bad) refl,
                            )
                            | inl good ↦ inr (
                              store,
                              generation,
                              new,
                              unnamed,
                              ground arith,
                              ground arith,
                              rw (claim_with_outbound, made, new, unnamed, room, next, good) refl,
                            )
                          ]
                    ]
              ]
            ]
          ]
        ]

Serves-same :
    (runtime : SessionRuntime) {f f' n n' s s' : Bytes}
    → f ≡ f'
    → n ≡ n'
    → s ≡ s'
    → Serves runtime f n s
    → Serves runtime f' n' s'
unfolding Serves
Serves-same runtime same_f same_n same_s serves =
    (serves.0 ∙ same_f, serves.1 ∙ same_n, serves.2 ∙ same_s)

pub claimed-IsRegistry :
    (identity : AuthenticatedClient) (runtime : SessionRuntime) (generation : ℕ)
    (state : RegistryState)
    → IsRegistry state
    → get state.active identity.fingerprint ≡ none
    → get state.by_name identity.name ≡ none
    → generation ≡ state.next_observability_generation + 1
    → Serves runtime identity.fingerprint identity.name identity.session_id
    → IsRegistry (claimed identity runtime generation state)
claimed-IsRegistry identity runtime generation state v new unnamed next serves =
    let vacant : get state.runtimes generation ≡ none = v.fresh generation (omega (arith, next)) in
    record {
      dict = insert-IsDict state.active identity.fingerprint _ v.dict;
      owned = λ f a at. elim (get-insert-cases state.active identity.fingerprint f _ a at) [
        | inl (same, is) ↦ (
          generation,
          runtime,
          (rw (sym (ap (λ b. b.name) is)) (get-insert_same state.by_name identity.name generation)),
          get-insert_same state.runtimes generation runtime,
          Serves-same runtime same (ap (λ b. b.name) is) (ap (λ b. b.session_id) is) serves,
        )
        | inr old ↦
            let (i, held, by, is, owner) = v.owned f a old in
            (
              i,
              held,
              get-insert_old state.by_name identity.name a.name generation i unnamed by,
              get-insert_old state.runtimes generation i runtime held vacant is,
              owner,
            )
      ];
      named = λ n r by. elim (get-insert-cases state.by_name identity.name n generation r by) [
        | inl (same, is) ↦ (
          runtime,
          identity.fingerprint,
          record { name = identity.name; session_id = identity.session_id },
          (rw (sym is) (get-insert_same state.runtimes generation runtime)),
          get-insert_same state.active identity.fingerprint _,
          same,
          Serves-same runtime refl same refl serves,
        )
        | inr old ↦
            let (held, f, a, is, at, name, owner) = v.named n r old in
            (
              held,
              f,
              a,
              get-insert_old state.runtimes generation r runtime held vacant is,
              get-insert_old state.active identity.fingerprint f _ a new at,
              name,
              owner,
            )
      ];
      fresh = λ r h.
          get-insert state.runtimes generation r runtime
          ∙ rw (v.fresh r (omega (arith, next))) (ground arith);
    }
