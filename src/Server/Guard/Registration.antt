-- ===== src/Server/Guard/Registration.antt =====
-- What `register_tunnels` answers, and what it leaves registered.
use rustgo.Prelude.{
  ℕ, ◌+◌, ◌≤◌, Bool, true, false, Option, none, some, List, [], ◌∷◌, length, length-append, leb, ok,
  err, Result-cases, ◌≡◌, ◌≢◌, ◌⊎◌, inl, inr, refl, ap, Bool-cases, Option-cases, arith,
}
use rustgo.Prelude.Bytes.{Bytes}
use rustgo.Prelude.Dict.{get, nat_key, get-insert_same, get-insert_old}
use rustgo.Protocol.Version.{ProtocolErrorCode}
use rustgo.Protocol.Payload.Tunnel.{TunnelRegistration, TunnelResult}
use rustgo.Server.Session.{RegistryError, SessionRuntime}
use rustgo.Server.Guard.{
  ListenerLease, ControlSessionGuard, Attempt, refuses, binding_of, record_binding, register_tunnel,
  register_tunnels,
}

-- What a result says of its tunnel: an accepted one is registered, a refused one has an error.
unfoldable pub Outcome :
    (accepted : Bool) → Option ProtocolErrorCode → TunnelRegistration → ControlSessionGuard → Type 0
Outcome true error tunnel guard =
    (get guard.tunnel_ids tunnel.tunnel_id ≡ some tunnel.protocol) × (error ≡ none)
Outcome false error tunnel guard = error ≢ none

-- The results answer the tunnels one by one, in their order.
unfoldable pub Answers : List TunnelRegistration → List TunnelResult → ControlSessionGuard → Type 0
unfolding Outcome
Answers [] [] guard = Unit
Answers (t ∷ ts) (r ∷ rs) guard =
    (r.tunnel_id ≡ t.tunnel_id) × Outcome r.accepted r.error t guard × Answers ts rs guard
Answers _ _ guard = false ≡ true

-- A listener is bound only where nothing refuses it.
unrefused :
    (is_blank : Bytes → Bool) (attempt : Attempt) (self : ControlSessionGuard)
    (tunnel : TunnelRegistration) (lease : ListenerLease)
    → (binding_of is_blank attempt self tunnel).0 ≡ ok lease
    → refuses is_blank self tunnel ≡ false
unrefused is_blank attempt self tunnel lease made =
    elim (Bool-cases (refuses is_blank self tunnel)) [
      | inr fine ↦ fine
      | inl refused ↦ absurd (ground (arith, refused))
    ]

register_tunnel-cases :
    (is_blank : Bytes → Bool) (attempt : Attempt) (self : ControlSessionGuard)
    (tunnel : TunnelRegistration)
    → ((e : RegistryError) × (runtime : SessionRuntime) × (register_tunnel is_blank attempt self
            tunnel
          ≡ record_binding (err e, runtime) self tunnel))
      ⊎ ((lease : ListenerLease) × (runtime : SessionRuntime) × (refuses is_blank self tunnel
            ≡ false)
          × (register_tunnel is_blank attempt self tunnel
              ≡ record_binding (ok lease, runtime) self tunnel))
unfolding register_tunnel
register_tunnel-cases is_blank attempt self tunnel =
    let bound = binding_of is_blank attempt self tunnel in
    elim (Result-cases bound.0) [
      | inr (e, failed) ↦ inl (e, bound.1, ap (λ r. record_binding (r, bound.1) self tunnel) failed)
      | inl (lease, made) ↦ inr (
        lease,
        bound.1,
        unrefused is_blank attempt self tunnel lease made,
        ap (λ r. record_binding (r, bound.1) self tunnel) made,
      )
    ]

-- The tunnels that were registered stay so.
Stay : (before after : ControlSessionGuard) → Type 0
Stay before after = (i p : ℕ) → get before.tunnel_ids i ≡ some p → get after.tunnel_ids i ≡ some p

new_id :
    (is_blank : Bytes → Bool) (self : ControlSessionGuard) (tunnel : TunnelRegistration)
    → refuses is_blank self tunnel ≡ false
    → get self.tunnel_ids tunnel.tunnel_id ≡ none
new_id is_blank self tunnel fine = elim (Option-cases (get self.tunnel_ids tunnel.tunnel_id)) [
  | inl new ↦ new
  | inr (p, taken) ↦ absurd (ground (arith, taken))
]

register_tunnel-Stay :
    (is_blank : Bytes → Bool) (attempt : Attempt) (self : ControlSessionGuard)
    (tunnel : TunnelRegistration)
    → Stay self (register_tunnel is_blank attempt self tunnel).1
unfolding Stay
register_tunnel-Stay is_blank attempt self tunnel i p at =
    elim (register_tunnel-cases is_blank attempt self tunnel) [
      | inl (e, runtime, is) ↦ rw is at
      | inr (lease, runtime, fine, is) ↦ rw is (
          get-insert_old self.tunnel_ids tunnel.tunnel_id i tunnel.protocol p
            (new_id is_blank self tunnel fine) at)
    ]

register_tunnels-Stay :
    (is_blank : Bytes → Bool) (attempts : ℕ → Attempt) (turn : ℕ) (self : ControlSessionGuard)
    (tunnels : List TunnelRegistration)
    → Stay self (register_tunnels is_blank attempts turn self tunnels).1
unfolding register_tunnels Stay
register_tunnels-Stay is_blank attempts turn self [] i p at = at
register_tunnels-Stay is_blank attempts turn self (t ∷ ts) i p at =
    register_tunnels-Stay is_blank attempts (turn + 1)
      (register_tunnel is_blank (attempts turn) self t).1 ts i p
      (register_tunnel-Stay is_blank (attempts turn) self t i p at)

register_tunnel-Outcome :
    (is_blank : Bytes → Bool) (attempt : Attempt) (self : ControlSessionGuard)
    (tunnel : TunnelRegistration)
    → (let result = (register_tunnel is_blank attempt self tunnel).0 in
        (result.tunnel_id ≡ tunnel.tunnel_id)
        × Outcome result.accepted result.error tunnel
            (register_tunnel is_blank attempt self tunnel).1)
unfolding Outcome
register_tunnel-Outcome is_blank attempt self tunnel =
    elim (register_tunnel-cases is_blank attempt self tunnel) [
      | inl (e, runtime, is) ↦ rw is (refl, λ none_is. ground arith)
      | inr (lease, runtime, fine, is) ↦
          rw is (refl, (get-insert_same self.tunnel_ids tunnel.tunnel_id tunnel.protocol, refl))
    ]

Outcome-Stay :
    (accepted : Bool) (error : Option ProtocolErrorCode) (tunnel : TunnelRegistration)
    (before after : ControlSessionGuard)
    → Stay before after
    → Outcome accepted error tunnel before
    → Outcome accepted error tunnel after
unfolding Outcome Stay
Outcome-Stay true error tunnel before after stay (at, fine) =
    (stay tunnel.tunnel_id tunnel.protocol at, fine)
Outcome-Stay false error tunnel before after stay failed = failed

-- A registration answers every tunnel, in the order of the request, under its identifier. A tunnel that is
-- accepted is registered with its protocol when the request is over, whatever comes after it, and its
-- result has no error; a tunnel that is refused has one.
pub register_tunnels-Answers :
    (is_blank : Bytes → Bool) (attempts : ℕ → Attempt) (turn : ℕ) (self : ControlSessionGuard)
    (tunnels : List TunnelRegistration)
    → Answers tunnels
        (register_tunnels is_blank attempts turn self tunnels).0
        (register_tunnels is_blank attempts turn self tunnels).1
unfolding register_tunnels Answers
register_tunnels-Answers is_blank attempts turn self [] = tt
register_tunnels-Answers is_blank attempts turn self (t ∷ ts) =
    let now = register_tunnel is_blank (attempts turn) self t in
    let (same, outcome) = register_tunnel-Outcome is_blank (attempts turn) self t in
    (
      same,
      Outcome-Stay now.0.accepted now.0.error t now.1
          (register_tunnels is_blank attempts (turn + 1) now.1 ts).1
          (register_tunnels-Stay is_blank attempts (turn + 1) now.1 ts) outcome,
      register_tunnels-Answers is_blank attempts (turn + 1) now.1 ts,
    )

register_tunnel-bound :
    (is_blank : Bytes → Bool) (attempt : Attempt) (self : ControlSessionGuard)
    (tunnel : TunnelRegistration)
    → length self.listeners ≤ self.max_tunnels_per_client
    → (length (register_tunnel is_blank attempt self tunnel).1.listeners
        ≤ self.max_tunnels_per_client)
      × ((register_tunnel is_blank attempt self tunnel).1.max_tunnels_per_client
          ≡ self.max_tunnels_per_client)
register_tunnel-bound is_blank attempt self tunnel h =
    elim (register_tunnel-cases is_blank attempt self tunnel) [
      | inl (e, runtime, is) ↦ rw is (h, refl)
      | inr (lease, runtime, fine, is) ↦
          let room : leb self.max_tunnels_per_client (length self.listeners) ≡ false =
            ground arith in
          rw is (ground (arith, length-append self.listeners (lease ∷ [])), refl)
    ]

-- A guard never holds more listeners than the tunnels that its registry allows a client, if it does not
-- before the registration.
pub register_tunnels-bound :
    (is_blank : Bytes → Bool) (attempts : ℕ → Attempt) (turn : ℕ) (self : ControlSessionGuard)
    (tunnels : List TunnelRegistration)
    → length self.listeners ≤ self.max_tunnels_per_client
    → length (register_tunnels is_blank attempts turn self tunnels).1.listeners
      ≤ self.max_tunnels_per_client
unfolding register_tunnels
register_tunnels-bound is_blank attempts turn self [] h = h
register_tunnels-bound is_blank attempts turn self (t ∷ ts) h =
    let (bound, same) = register_tunnel-bound is_blank (attempts turn) self t h in
    let rest =
      register_tunnels-bound is_blank attempts (turn + 1)
        (register_tunnel is_blank (attempts turn) self t).1 ts (omega (arith, same)) in
    omega (arith, same)
