-- ===== src/Server/Session.antt =====
-- crates/rustgos/src/registry.rs: `SessionRuntime`, the data channels that one control session waits for.
-- Every method that locks the bindings is one operation. The random numbers and the clock are
-- arguments, and a oneshot channel is a number that names it.
pub mod Delivery
pub mod Steps
mod Tests
use rustgo.Prelude.{
  ℕ, zero, suc, Bool, true, false, not, ◌&&◌, ◌||◌, Option, none, some, List, [], ◌∷◌, ◌==◌,
  if◌then◌else◌, Result, ok, err,
}
use rustgo.Prelude.Bytes.{Bytes, bytes_key}
use rustgo.Prelude.Dict.{Dict, get, insert, erase, nat_key}
use rustgo.Protocol.Version.{ProtocolVersion}
use rustgo.Protocol.Payload.Tunnel.{DataChannelBind}
use rustgo.Transport.Binding.{
  ChannelKind, tcp, udp, same_kind, ChannelBinding, ChannelBindingStore, BindingError, is_some,
  recognizes, issue, revoke, redeem,
}
use rustgo.Transport.Binding as Binding

abbrev pub max_connection_id_attempts : ℕ
max_connection_id_attempts = 16

-- The kinds of `std::io::Error` that the server tells apart.
pub data IoErrorKind : Type 0 where
  addr_in_use : IoErrorKind
  permission_denied : IoErrorKind
  other_kind : IoErrorKind

-- The errors of a session; `binding` wraps those of the store.
pub data RegistryError : Type 0 where
  invalid_configuration : RegistryError
  already_connected : RegistryError
  capacity_reached : RegistryError
  unknown_tunnel : RegistryError
  invalid_tunnel_registration : RegistryError
  udp_bind_address_required : RegistryError
  binding : BindingError → RegistryError
  io : IoErrorKind → RegistryError
  entropy_unavailable : RegistryError
  internal : RegistryError
  observability_already_configured : RegistryError
  generation_exhausted : RegistryError

-- `PendingTcp` and `PendingUdp`, which have the same fields.
pub record Pending : Type 0 where
  pub channel_kind : ChannelKind
  pub binding_token : Bytes
  pub destination : ℕ

pub record SessionBindings : Type 0 where
  pub store : ChannelBindingStore
  pub pending_tcp : Dict ℕ Pending
  pub pending_udp : Dict ℕ Pending

-- Without the sender of outbound messages and the observability sink, which no operation below uses.
pub record SessionRuntime : Type 0 where
  pub client : Bytes
  pub fingerprint : Bytes
  pub session_id : Bytes
  pub bindings : SessionBindings
  pub cancellation : Bool
  pub available : Bool
  pub binding_ttl : ℕ
  pub protocol_version : ProtocolVersion

-- What an operation draws and reads: identifiers, tokens, the time and the sum of times.
pub record Surroundings : Type 0 where
  pub identifiers : ℕ → Option ℕ
  pub tokens : ℕ → Option Bytes
  pub now : ℕ
  pub checked_add : ℕ → ℕ → Option ℕ

-- The turns of the loops in `prepare_tcp` and `prepare_udp` up to the first that does not `continue`.
unfoldable pub fresh_id :
    (attempts : ℕ) → (draws : ℕ → Option ℕ) → (drawn : ℕ) → Dict ℕ Pending → Result RegistryError ℕ
unfolding get
fresh_id zero draws drawn pending = err entropy_unavailable
fresh_id (suc attempts) draws drawn pending =
    let rest = fresh_id attempts draws (suc drawn) pending in
    elim (draws drawn) [
      | none ↦ err entropy_unavailable
      | some id ↦ if id == 0 then rest else if is_some (get pending id) then rest else ok id
    ]

abbrev with_bindings : SessionBindings → SessionRuntime → SessionRuntime
with_bindings b self = record self { bindings = b }

-- What a prepared channel gets: its identifier and its token.
abbrev pub prepared : ℕ → Bytes → Result RegistryError (ℕ × Bytes)
prepared id token = ok (id, token)

unfoldable pub prepare_tcp :
    Surroundings
    → SessionRuntime
    → (tunnel_id destination : ℕ) → Result RegistryError (ℕ × Bytes) × SessionRuntime
unfolding fresh_id issue insert
prepare_tcp s self tunnel_id destination =
    let bindings = self.bindings in
    elim (fresh_id max_connection_id_attempts s.identifiers 0 bindings.pending_tcp) [
      | err e ↦ (err e, self)
      | ok connection_id ↦
          let channel_kind = tcp tunnel_id connection_id in
          let (answer, store) = issue s.checked_add s.tokens s.now bindings.store channel_kind in
          elim answer [
            | err e ↦ (err (binding e), with_bindings (record bindings { store = store }) self)
            | ok token ↦ (
              prepared connection_id token,
              with_bindings
                  (record bindings {
                    store = store;
                    pending_tcp = insert bindings.pending_tcp connection_id (record {
                      channel_kind = channel_kind;
                      binding_token = token;
                      destination = destination;
                    });
                  })
                  self,
            )
          ]
    ]

unfoldable pub prepare_udp :
    Surroundings
    → SessionRuntime
    → (tunnel_id destination : ℕ) → Result RegistryError (ℕ × Bytes) × SessionRuntime
unfolding fresh_id issue insert
prepare_udp s self tunnel_id destination =
    let bindings = self.bindings in
    elim (fresh_id max_connection_id_attempts s.identifiers 0 bindings.pending_udp) [
      | err e ↦ (err e, self)
      | ok channel_id ↦
          let channel_kind = udp tunnel_id channel_id in
          let (answer, store) = issue s.checked_add s.tokens s.now bindings.store channel_kind in
          elim answer [
            | err e ↦ (err (binding e), with_bindings (record bindings { store = store }) self)
            | ok token ↦ (
              prepared channel_id token,
              with_bindings
                  (record bindings {
                    store = store;
                    pending_udp = insert bindings.pending_udp channel_id (record {
                      channel_kind = channel_kind;
                      binding_token = token;
                      destination = destination;
                    });
                  })
                  self,
            )
          ]
    ]

unfoldable pub cancel_pending : SessionRuntime → (connection_id : ℕ) → SessionRuntime
unfolding get erase revoke
cancel_pending self connection_id =
    let bindings = self.bindings in
    elim (get bindings.pending_tcp connection_id) [
      | none ↦ self
      | some pending ↦
          with_bindings
            (record bindings {
              store = (revoke bindings.store pending.channel_kind pending.binding_token).1;
              pending_tcp = erase bindings.pending_tcp connection_id;
            })
            self
    ]

unfoldable pub cancel_pending_udp : SessionRuntime → (channel_id : ℕ) → SessionRuntime
unfolding get erase revoke
cancel_pending_udp self channel_id =
    let bindings = self.bindings in
    elim (get bindings.pending_udp channel_id) [
      | none ↦ self
      | some pending ↦
          with_bindings
            (record bindings {
              store = (revoke bindings.store pending.channel_kind pending.binding_token).1;
              pending_udp = erase bindings.pending_udp channel_id;
            })
            self
    ]

-- `DataChannelKind::TCP`
abbrev pub data_channel_tcp : ℕ
data_channel_tcp = 1

abbrev pub requested_kind : DataChannelBind → ChannelKind
requested_kind request =
    if request.kind == data_channel_tcp
    then tcp request.tunnel_id request.target_id
    else udp request.tunnel_id request.target_id

abbrev pub Redeemed : Type 0
Redeemed = Result RegistryError (ChannelBinding × ℕ)

-- The pending entry of a redeemed channel, taken from its map.
abbrev pub destination_of : Option Pending → ChannelKind → ChannelBinding → Redeemed
destination_of none channel_kind bound = err (binding Binding.rejected)
destination_of (some pending) channel_kind bound =
    if not (same_kind pending.channel_kind channel_kind)
    then err (binding Binding.rejected)
    else ok (bound, pending.destination)

abbrev pub same_version : ProtocolVersion → ProtocolVersion → Bool
same_version a b = a.major == b.major && a.minor == b.minor

unfoldable pub redeem_if_present :
    (now : ℕ)
    → SessionRuntime
    → DataChannelBind
    → ProtocolVersion
    → Option Redeemed × SessionRuntime
unfolding get erase redeem recognizes same_kind
redeem_if_present now self request protocol_version =
    let bindings = self.bindings in
    let channel_kind = requested_kind request in
    if not (recognizes bindings.store request.binding_token)
    then (none, self)
    else if not (same_version protocol_version self.protocol_version)
    then (some (err (binding Binding.rejected)), self)
    else (let (answer, store) =
          redeem now bindings.store request.client_name request.session_id channel_kind
            request.binding_token in
        elim answer [
          | err e ↦ (some (err (binding e)), with_bindings (record bindings { store = store }) self)
          | ok bound ↦
              if request.kind == data_channel_tcp
              then (
                some (
                    destination_of (get bindings.pending_tcp request.target_id) channel_kind bound),
                with_bindings
                    (record bindings {
                      store = store;
                      pending_tcp = erase bindings.pending_tcp request.target_id;
                    })
                    self,
              )
              else (
                some (
                    destination_of (get bindings.pending_udp request.target_id) channel_kind bound),
                with_bindings
                    (record bindings {
                      store = store;
                      pending_udp = erase bindings.pending_udp request.target_id;
                    })
                    self,
              )
        ])

-- The tokens of a map of pending channels are revoked.
unfoldable pub revoke_all : Dict ℕ Pending → ChannelBindingStore → ChannelBindingStore
unfolding revoke
revoke_all [] store = store
revoke_all ((id, pending) ∷ rest) store =
    revoke_all rest (revoke store pending.channel_kind pending.binding_token).1

unfoldable pub cancel : SessionRuntime → SessionRuntime
unfolding revoke_all
cancel self =
    let bindings = self.bindings in
    record self {
      available = false;
      cancellation = true;
      bindings = record {
        store = revoke_all bindings.pending_udp (revoke_all bindings.pending_tcp bindings.store);
        pending_tcp = [];
        pending_udp = [];
      };
    }
