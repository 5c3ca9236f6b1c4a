-- ===== src/Server/Registry/Release.antt =====
-- Which sessions are active after a claim and after a release.
use rustgo.Prelude.{
  some-injective, ℕ, Bool, true, false, not, Option, none, some, if◌then◌else◌, ok, err, ◌≡◌, ◌≢◌,
  inl, inr, refl, ◌∙◌, sym, ap, Bool-cases, Option-cases, arith,
}
use rustgo.Prelude.Bytes.{Bytes, eq_bytes, eq_bytes_iff, eq_bytes_refl, bytes_key}
use rustgo.Prelude.Dict.{get, erase, nat_key, get-erase, get-erase_other, get-insert_same}
use rustgo.Protocol.Version.{ProtocolVersion}
use rustgo.Protocol.Payload.Tunnel.{DataChannelBind}
use rustgo.Transport.Binding.{ChannelBinding}
use rustgo.Transport.Binding as Binding
use rustgo.Server.Session.{binding, Redeemed, SessionRuntime, Surroundings}
use rustgo.Server.Session.Steps.{Serves}
use rustgo.Server.Registry.{
  AuthenticatedClient, RegistryState, ClientRegistry, new_runtime, claim_with_outbound, owns_entry,
  release, follow, runtime_of, is_available, is_active_session, authenticate_runtime,
  authenticate_data_channel,
}
use rustgo.Server.Registry.Invariant.{IsRegistry}
use rustgo.Server.Registry.Claims.{claim-cases}
use rustgo.Server.Registry.Ownership.{owned_by, names_apart}

-- A client that was let in is active, with its session.
claim_with_outbound-is_active_session :
    (registry : ClientRegistry) (s : Surroundings) (identity : AuthenticatedClient)
    (version : ProtocolVersion) (state : RegistryState) (generation : ℕ)
    → (claim_with_outbound registry s identity version state).0 ≡ ok generation
    → is_active_session (claim_with_outbound registry s identity version state).1 identity ≡ true
unfolding is_active_session runtime_of
claim_with_outbound-is_active_session registry s identity version state generation claimed_ok =
    elim (claim-cases registry s identity version state) [
      | inl (e, same) ↦ absurd (ground (arith, ap (λ r. r.0) same))
      | inr (store, n, new, unnamed, _, next, same) ↦
          let runtime = new_runtime registry identity version store in
          rw
            (
              same,
              is_active_session,
              runtime_of,
              get-insert_same state.active identity.fingerprint,
              get-insert_same state.by_name identity.name n,
              get-insert_same state.runtimes n runtime,
              eq_bytes_refl identity.name,
              eq_bytes_refl identity.session_id,
            )
            refl
    ]

release-own :
    (state : RegistryState) (identity : AuthenticatedClient)
    → is_active_session (release identity state) identity ≡ false
unfolding is_active_session release
release-own state identity =
    elim (Bool-cases (owns_entry (get state.active identity.fingerprint) identity)) [
      | inr other ↦ rw (release, other, is_active_session, other) refl
      | inl own ↦
          let gone : get (erase state.active identity.fingerprint) identity.fingerprint ≡ none =
            get-erase state.active identity.fingerprint identity.fingerprint
            ∙ rw (eq_bytes_refl identity.fingerprint) refl in
          rw (release, own, is_active_session, gone) refl
    ]

follow-runtimes :
    (link : Option ℕ) (s t : RegistryState)
    → s.runtimes ≡ t.runtimes
    → follow link s ≡ follow link t
follow-runtimes none s t same = refl
follow-runtimes (some r) s t same = ap (λ d. get d r) same

release-others :
    (state : RegistryState) (identity other : AuthenticatedClient)
    → IsRegistry state
    → identity.fingerprint ≢ other.fingerprint
    → is_active_session (release identity state) other ≡ is_active_session state other
unfolding is_active_session release runtime_of
release-others state identity other v apart =
    elim (Bool-cases (owns_entry (get state.active identity.fingerprint) identity)) [
      | inr unowned ↦ rw (release, unowned) refl
      | inl own ↦
          let stays = get-erase_other state.active identity.fingerprint other.fingerprint apart in
          elim (Bool-cases (owns_entry (get state.active other.fingerprint) other)) [
            | inr inactive ↦ rw (release, own, is_active_session, stays, inactive) refl
            | inl active ↦
                let names =
                  names_apart state identity.fingerprint other.fingerprint _ _ v
                    (owned_by _ identity own) (owned_by _ other active) apart in
                rw
                  (
                    release,
                    own,
                    is_active_session,
                    stays,
                    active,
                    runtime_of,
                    get-erase_other state.by_name identity.name other.name names,
                  )
                  (ap is_available (follow-runtimes (get state.by_name other.name) _ state refl))
          ]
    ]

-- After a release the identity is not active, and every client under another fingerprint is active exactly if
-- it was, in a registry that keeps its invariant: a release under a name or a session that is not the
-- client's own ends nobody else's session.
pub release-is_active_session :
    (state : RegistryState) (identity other : AuthenticatedClient)
    → IsRegistry state
    → identity.fingerprint ≢ other.fingerprint
    → (is_active_session (release identity state) identity ≡ false)
      × (is_active_session (release identity state) other ≡ is_active_session state other)
release-is_active_session state identity other v apart =
    (release-own state identity, release-others state identity other v apart)

if_taken :
    {A : Type 0} (b : Bool) (x y : A × RegistryState) → b ≡ false → (if not b then x else y).0 ≡ x.0
if_taken b x y h = rw h refl

refused :
    {answer : Redeemed} {a : ChannelBinding × ℕ}
    → answer ≡ err (binding Binding.rejected)
    → answer ≢ ok a
refused is h = ground arith

-- What answered a client's data channel.
authenticate-found :
    (now : ℕ) (request : DataChannelBind) (version : ProtocolVersion) (state : RegistryState)
    (answer : ChannelBinding × ℕ)
    → (authenticate_data_channel now request version state).0 ≡ ok answer
    → (r : ℕ) × (runtime : SessionRuntime) × (get state.by_name request.client_name ≡ some r)
      × (get state.runtimes r ≡ some runtime)
      × (runtime.session_id ≡ request.session_id)
      × (runtime.available ≡ true)
unfolding authenticate_data_channel authenticate_runtime
authenticate-found now request version state answer h =
    elim (Option-cases (get state.by_name request.client_name)) [
      | inl missing ↦ absurd (refused (rw (authenticate_data_channel, missing) refl) h)
      | inr (r, by) ↦ elim (Option-cases (get state.runtimes r)) [
        | inl dangling ↦
            absurd
              (refused (rw (authenticate_data_channel, by, authenticate_runtime, dangling) refl) h)
        | inr (runtime, at) ↦ elim (Bool-cases (eq_bytes runtime.session_id request.session_id)) [
          | inr other ↦
              absurd (
                refused (rw (authenticate_data_channel, by, authenticate_runtime, at, other) refl)
                  h)
          | inl same ↦ elim (Bool-cases runtime.available) [
            | inr gone ↦ absurd (
                refused
                  (rw (authenticate_data_channel, by, authenticate_runtime, at, same)
                    (if_taken runtime.available _ _ gone))
                  h)
            | inl there ↦ (
              r,
              runtime,
              by,
              at,
              (eq_bytes_iff runtime.session_id request.session_id).0 same,
              there,
            )
          ]
        ]
      ]
    ]

-- A data channel is authenticated, in a registry that keeps its invariant, only for a client that is active
-- under the name and with the session of the request.
pub authenticate_data_channel-is_active_session :
    (now : ℕ) (request : DataChannelBind) (version : ProtocolVersion) (state : RegistryState)
    (answer : ChannelBinding × ℕ)
    → IsRegistry state
    → (authenticate_data_channel now request version state).0 ≡ ok answer
    → (f : Bytes) × (is_active_session state
          (record { name = request.client_name; fingerprint = f; session_id = request.session_id })
        ≡ true)
unfolding is_active_session runtime_of Serves
authenticate_data_channel-is_active_session now request version state answer v h =
    let (r, runtime, by, at, session, there) =
      authenticate-found now request version state answer h in
    let (held, f, a, is, active, name, serves) = v.named request.client_name r by in
    let both : held ≡ runtime = some-injective (sym is ∙ at) in
    let ours : a.session_id ≡ request.session_id =
      sym serves.2 ∙ ap (λ x. x.session_id) both ∙ session in
    (
      f,
      rw
          (
            is_active_session,
            runtime_of,
            active,
            by,
            at,
            there,
            (eq_bytes_iff a.name request.client_name).1 name,
            (eq_bytes_iff a.session_id request.session_id).1 ours,
          )
          refl,
    )
