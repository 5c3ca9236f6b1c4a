-- ===== src/Server/Registry/Ownership.antt =====
-- A name belongs to one fingerprint, and `release` ends the session of its identity alone.
use rustgo.Prelude.{
  ℕ, true, Option, none, some, ◌≡◌, ◌≢◌, inl, inr, ◌∙◌, sym, ap, Bool-cases, some-injective, arith,
}
use rustgo.Prelude.Bytes.{Bytes, eq_bytes_iff, bytes_key}
use rustgo.Prelude.Dict.{get, erase, nat_key, get-erase_other, get-erase-cases, erase-IsDict}
use rustgo.Server.Session.{SessionRuntime}
use rustgo.Server.Session.Steps.{Serves}
use rustgo.Server.Registry.{AuthenticatedClient, ActiveSession, RegistryState, owns_entry, release}
use rustgo.Server.Registry.Invariant.{IsRegistry}

-- One name leads to one runtime, and so to one fingerprint.
shared_runtime :
    (state : RegistryState) (n m : Bytes)
    → n ≡ m
    → (r i : ℕ) (a b : SessionRuntime) {f g : Bytes} → get state.by_name n ≡ some r
    → get state.by_name m ≡ some i
    → get state.runtimes r ≡ some a
    → get state.runtimes i ≡ some b
    → a.fingerprint ≡ f
    → b.fingerprint ≡ g
    → f ≡ g
shared_runtime state n m same r i a b by_n by_m at_r at_i is_f is_g =
    let one : r ≡ i = some-injective (sym by_n ∙ ap (get state.by_name) same ∙ by_m) in
    let both : a ≡ b = some-injective (sym at_r ∙ ap (get state.runtimes) one ∙ at_i) in
    sym is_f ∙ ap (λ c. c.fingerprint) both ∙ is_g

shared_name :
    (state : RegistryState) (f g : Bytes)
    → f ≡ g
    → (a b : ActiveSession) → get state.active f ≡ some a
    → get state.active g ≡ some b
    → a.name ≡ b.name
shared_name state f g same a b at_f at_g =
    ap (λ c. c.name) (some-injective (sym at_f ∙ ap (get state.active) same ∙ at_g))

-- Clients with different fingerprints have different names.
pub names_apart :
    (state : RegistryState) (f g : Bytes) (a b : ActiveSession)
    → IsRegistry state
    → get state.active f ≡ some a
    → get state.active g ≡ some b
    → f ≢ g
    → a.name ≢ b.name
unfolding Serves
names_apart state f g a b v at_f at_g apart = λ same.
    let (r, one, by_f, is_f, serves_f) = v.owned f a at_f in
    let (i, two, by_g, is_g, serves_g) = v.owned g b at_g in
    apart (
      shared_runtime state a.name b.name same r i one two by_f by_g is_f is_g serves_f.0 serves_g.0)

pub owned_by :
    (a : Option ActiveSession) (identity : AuthenticatedClient)
    → owns_entry a identity ≡ true
    → a ≡ some (record { name = identity.name; session_id = identity.session_id })
owned_by none identity h = cc
owned_by (some a) identity h =
    ground (arith, eq_bytes_iff a.name identity.name, eq_bytes_iff a.session_id identity.session_id)

released-IsRegistry :
    (identity : AuthenticatedClient) (state : RegistryState)
    → IsRegistry state
    → get state.active identity.fingerprint
      ≡ some (record { name = identity.name; session_id = identity.session_id })
    → IsRegistry (record state {
      active = erase state.active identity.fingerprint;
      by_name = erase state.by_name identity.name;
    })
unfolding Serves
released-IsRegistry identity state v own = record {
  dict = erase-IsDict state.active identity.fingerprint v.dict;
  owned = λ f a at.
      let (apart, old) = get-erase-cases state.active identity.fingerprint f a at in
      let (i, held, by, is, owner) = v.owned f a old in
      let unnamed = names_apart state identity.fingerprint f _ a v own old apart in
      (i, held, get-erase_other state.by_name identity.name a.name unnamed ∙ by, is, owner);
  named = λ n i by.
      let (apart, old) = get-erase-cases state.by_name identity.name n i by in
      let (held, f, a, is, at, name, owner) = v.named n i old in
      let unowned : identity.fingerprint ≢ f =
        λ same. apart (shared_name state identity.fingerprint f same _ a own at ∙ name) in
      (
        held,
        f,
        a,
        is,
        get-erase_other state.active identity.fingerprint f unowned ∙ at,
        name,
        owner,
      );
  fresh = v.fresh;
}

pub release-IsRegistry :
    (identity : AuthenticatedClient) (state : RegistryState)
    → IsRegistry state
    → IsRegistry (release identity state)
unfolding release
release-IsRegistry identity state v =
    elim (Bool-cases (owns_entry (get state.active identity.fingerprint) identity)) [
      | inr other ↦ rw (release, other) v
      | inl own ↦ rw (release, own) (released-IsRegistry identity state v (owned_by _ identity own))
    ]
