-- ===== src/Protocol/Handshake/Gate.antt =====
-- What one control message can do: it moves the handshake forward only, keeps the session, and is
-- held back until its state, its direction and its version allow it.
use rustgo.Prelude.{
  ◌+◌, ◌≤◌, ◌<◌, ◌≡◌, ◌≢◌, refl, ◌↔◌, ◌⊎◌, inl, inr, true, ok, arith, none, Bool-cases, ap, sym,
  ◌∙◌,
}
use rustgo.Prelude.Bytes.{Bytes, eq_bytes_iff}
use rustgo.Protocol.Version.{
  ProtocolVersion, supports_managed_editing, supports_managed_configuration, supports_telemetry,
}
use rustgo.Protocol.MessageId.{as_u16}
use rustgo.Protocol.Message.{Message, id}
use rustgo.Protocol.Handshake.{
  ControlMessageDirection, client_to_server, server_to_client, ClientHandshakeState, active,
  rejected, transition, transition_control, is_active, validate_data_channel_session,
}
use rustgo.Protocol.Handshake.Order.{session, stage, is_side, side_stays, main_transition}

pub record Forward (s t : ClientHandshakeState) : Type 0 where
  pub live : s ≢ rejected
  pub onward : stage s ≤ stage t
  pub by_one : (t ≡ rejected) ⊎ (stage t ≤ stage s + 1)
  pub keeps : (t ≡ rejected) ⊎ (session s ≡ none) ⊎ (session t ≡ session s)

transition-Forward :
    (s t : ClientHandshakeState) (m : Message) → transition s m ≡ ok t → Forward s t
unfolding transition
transition-Forward s t (Message.client_hello a) h = ground arith
transition-Forward s t _ h = ground arith

-- A side message is accepted only of an authenticated connection.
side_stage :
    (s t : ClientHandshakeState) (v : ProtocolVersion) (d : ControlMessageDirection) (m : Message)
    → is_side m ≡ true
    → transition_control s v d m ≡ ok t
    → (4 ≤ stage s) × (stage s ≤ 5)
unfolding transition_control is_active
side_stage s t v d (Message.managed_config_request _) side h = ground arith
side_stage s t v d _ side h = ground arith

early_ids :
    (s t : ClientHandshakeState) (m : Message)
    → stage s < 4
    → transition s m ≡ ok t
    → as_u16 (id m) ≤ 4
unfolding transition as_u16 id
early_ids s t (Message.client_hello a) early h = ground arith
early_ids s t _ early h = ground arith

-- Every control message that is accepted moves the handshake on by at most one stage, or rejects
-- it; it never goes back, never leaves the rejected state, and keeps a session once there is one.
pub transition_control-Forward :
    (s t : ClientHandshakeState) (v : ProtocolVersion) (d : ControlMessageDirection) (m : Message)
    → transition_control s v d m ≡ ok t
    → Forward s t
transition_control-Forward s t v d m h = elim (Bool-cases (is_side m)) [
  | inl side ↦
      let (late, bound) = side_stage s t v d m side h in
      rw (side_stays s t v d m side h) (record {
        live = λ e. omega (arith, ap stage e, bound);
        onward = omega arith;
        by_one = inr (omega arith);
        keeps = inr (inr refl);
      })
  | inr main ↦ transition-Forward s t m (sym (main_transition s v d m main) ∙ h)
]

-- Before a connection is authenticated it accepts nothing but the four messages of authentication,
-- those with the identifiers 1 to 4.
pub before_authentication :
    (s t : ClientHandshakeState) (v : ProtocolVersion) (d : ControlMessageDirection) (m : Message)
    → stage s < 4
    → transition_control s v d m ≡ ok t
    → as_u16 (id m) ≤ 4
before_authentication s t v d m early h = elim (Bool-cases (is_side m)) [
  | inl side ↦ absurd (omega (arith, (side_stage s t v d m side h).0))
  | inr main ↦ early_ids s t m early (sym (main_transition s v d m main) ∙ h)
]

-- The versions, the direction and the states of the messages that need them.
abbrev pub Permitted :
    ClientHandshakeState → ProtocolVersion → ControlMessageDirection → Message → Type 0
Permitted s v d (Message.managed_config_update _) =
    (stage s ≡ 4) × (supports_managed_editing v ≡ true) × (d ≡ client_to_server)
Permitted s v d (Message.managed_config_update_result _) =
    (stage s ≡ 4) × (supports_managed_editing v ≡ true) × (d ≡ server_to_client)
Permitted s v d (Message.managed_config_request _) =
    (stage s ≡ 4) × (supports_managed_configuration v ≡ true) × (d ≡ client_to_server)
Permitted s v d (Message.managed_config_snapshot _) =
    (stage s ≡ 4) × (supports_managed_configuration v ≡ true) × (d ≡ server_to_client)
Permitted s v d (Message.managed_config_report _) =
    ((stage s ≡ 4) ⊎ (stage s ≡ 5))
    × (supports_managed_configuration v ≡ true)
    × (d ≡ client_to_server)
Permitted s v d (Message.telemetry_report _) =
    (stage s ≡ 5) × (supports_telemetry v ≡ true) × (d ≡ client_to_server)
Permitted s v d _ = ⊥

-- A message of managed configuration or telemetry is accepted, with whatever next state, exactly
-- in the stages, in the direction and under the versions that permit it, and the next state is then
-- the state as it was.
pub side_iff :
    (s t : ClientHandshakeState) (v : ProtocolVersion) (d : ControlMessageDirection) (m : Message)
    → is_side m ≡ true
    → (transition_control s v d m ≡ ok t) ↔ (Permitted s v d m × (t ≡ s))
unfolding transition_control is_active
side_iff s t v d (Message.managed_config_request _) side = ground arith
side_iff s t v d _ side = ground arith

-- A data channel is bound exactly if the control channel is active and the channel names its
-- session.
validate_data_channel_session_iff :
    (s : ClientHandshakeState) (candidate : Bytes)
    → (validate_data_channel_session s candidate ≡ ok tt) ↔ (s ≡ active candidate)
unfolding validate_data_channel_session
validate_data_channel_session_iff (active q) candidate = ground (arith, eq_bytes_iff q candidate)
validate_data_channel_session_iff s candidate = (λ h. cc, λ h. cc)
