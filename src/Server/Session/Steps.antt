-- ===== src/Server/Session/Steps.antt =====
-- What is done with a session leaves it to its client.
use rustgo.Prelude.{
  ℕ, Bool, true, false, ◌==◌, if◌then◌else◌, Result-cases, ◌≡◌, inl, inr, refl, Bool-cases,
  Option-cases,
}
use rustgo.Prelude.Bytes.{Bytes}
use rustgo.Prelude.Dict.{get, nat_key}
use rustgo.Protocol.Version.{ProtocolVersion}
use rustgo.Protocol.Payload.Tunnel.{DataChannelBind}
use rustgo.Transport.Binding.{tcp, udp, recognizes, issue, redeem}
use rustgo.Server.Session.{
  SessionRuntime, Surroundings, max_connection_id_attempts, fresh_id, prepare_tcp, prepare_udp,
  cancel_pending, cancel_pending_udp, data_channel_tcp, requested_kind, same_version,
  redeem_if_present, cancel,
}

-- The runtime is that of the client with this fingerprint, name and session.
unfoldable pub Serves : SessionRuntime → (fingerprint name session_id : Bytes) → Type 0
Serves runtime fingerprint name session_id =
    (runtime.fingerprint ≡ fingerprint)
    × (runtime.client ≡ name)
    × (runtime.session_id ≡ session_id)

-- The operations on a session that the registry does not answer for.
pub data SessionStep : Type 0 where
  prepares_tcp : Surroundings → (tunnel_id destination : ℕ) → SessionStep
  prepares_udp : Surroundings → (tunnel_id destination : ℕ) → SessionStep
  cancels_tcp : (connection_id : ℕ) → SessionStep
  cancels_udp : (channel_id : ℕ) → SessionStep
  ends : SessionStep

unfoldable pub session_step : SessionRuntime → SessionStep → SessionRuntime
unfolding prepare_tcp prepare_udp cancel_pending cancel_pending_udp cancel
session_step self (prepares_tcp s tunnel_id destination) =
    (prepare_tcp s self tunnel_id destination).1
session_step self (prepares_udp s tunnel_id destination) =
    (prepare_udp s self tunnel_id destination).1
session_step self (cancels_tcp connection_id) = cancel_pending self connection_id
session_step self (cancels_udp channel_id) = cancel_pending_udp self channel_id
session_step self ends = cancel self

if-Serves :
    {A : Type 0} (b : Bool) (x y : A × SessionRuntime) (f n s : Bytes)
    → Serves x.1 f n s
    → Serves y.1 f n s
    → Serves (if b then x else y).1 f n s
if-Serves true x y f n s p q = p
if-Serves false x y f n s p q = q

pub redeem_if_present-Serves :
    (now : ℕ) (self : SessionRuntime) (request : DataChannelBind) (version : ProtocolVersion)
    → Serves
        (redeem_if_present now self request version).1
        self.fingerprint
        self.client
        self.session_id
unfolding redeem_if_present Serves
redeem_if_present-Serves now self request version =
    let store = self.bindings.store in
    elim (Bool-cases (recognizes store request.binding_token)) [
      | inr unknown ↦ rw (redeem_if_present, unknown) (refl, refl, refl)
      | inl known ↦ elim (Bool-cases (same_version version self.protocol_version)) [
        | inr other ↦ rw (redeem_if_present, known, other) (refl, refl, refl)
        | inl same ↦
            elim (Result-cases
              (redeem now store request.client_name request.session_id (requested_kind request)
                request.binding_token).0) [
                  | inr (e, failed) ↦ rw (redeem_if_present, known, same, failed) (refl, refl, refl)
                  | inl (bound, granted) ↦
                      rw (redeem_if_present, known, same, granted)
                        (if-Serves (request.kind == data_channel_tcp) _ _ self.fingerprint
                          self.client self.session_id (refl, refl, refl) (refl, refl, refl))
                ]
      ]
    ]

pub session_step-Serves :
    (self : SessionRuntime) (x : SessionStep)
    → Serves (session_step self x) self.fingerprint self.client self.session_id
unfolding session_step Serves prepare_tcp prepare_udp cancel_pending cancel_pending_udp cancel
session_step-Serves self (prepares_tcp s tunnel_id destination) =
    elim (Result-cases
      (fresh_id max_connection_id_attempts s.identifiers 0 self.bindings.pending_tcp)) [
        | inr (e, failed) ↦ rw (session_step, prepare_tcp, failed) (refl, refl, refl)
        | inl (id, drew) ↦
            elim (Result-cases
              (issue s.checked_add s.tokens s.now self.bindings.store (tcp tunnel_id id)).0) [
                | inr (e, failed) ↦ rw (session_step, prepare_tcp, drew, failed) (refl, refl, refl)
                | inl (t, issued) ↦ rw (session_step, prepare_tcp, drew, issued) (refl, refl, refl)
              ]
      ]
session_step-Serves self (prepares_udp s tunnel_id destination) =
    elim (Result-cases
      (fresh_id max_connection_id_attempts s.identifiers 0 self.bindings.pending_udp)) [
        | inr (e, failed) ↦ rw (session_step, prepare_udp, failed) (refl, refl, refl)
        | inl (id, drew) ↦
            elim (Result-cases
              (issue s.checked_add s.tokens s.now self.bindings.store (udp tunnel_id id)).0) [
                | inr (e, failed) ↦ rw (session_step, prepare_udp, drew, failed) (refl, refl, refl)
                | inl (t, issued) ↦ rw (session_step, prepare_udp, drew, issued) (refl, refl, refl)
              ]
      ]
session_step-Serves self (cancels_tcp connection_id) =
    elim (Option-cases (get self.bindings.pending_tcp connection_id)) [
      | inl missing ↦ rw (session_step, cancel_pending, missing) (refl, refl, refl)
      | inr (p, found) ↦ rw (session_step, cancel_pending, found) (refl, refl, refl)
    ]
session_step-Serves self (cancels_udp channel_id) =
    elim (Option-cases (get self.bindings.pending_udp channel_id)) [
      | inl missing ↦ rw (session_step, cancel_pending_udp, missing) (refl, refl, refl)
      | inr (p, found) ↦ rw (session_step, cancel_pending_udp, found) (refl, refl, refl)
    ]
session_step-Serves self ends = (refl, refl, refl)
