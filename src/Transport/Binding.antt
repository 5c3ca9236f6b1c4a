-- ===== src/Transport/Binding.antt =====
-- crates/rustgo-transport/src/tls.rs: `ChannelBindingStore`, the one-time tokens by which data channels
-- are bound to their control session. A time is its nanoseconds. `Instant::checked_add` and the random
-- numbers of the system are parameters: draw `i` is a token or fails.
pub mod Redeem
pub mod Steps
pub mod Issue
pub mod Once
pub mod Invariant
mod Tests
use rustgo.Prelude.{
  ℕ, zero, suc, Bool, true, false, not, ◌&&◌, ◌||◌, Option, none, some, List, [], ◌∷◌, length, ltb,
  leb, ◌==◌, if◌then◌else◌, Result, ok, err, ◌≡◌, ◌↔◌, arith,
}
use rustgo.Prelude.Bytes.{Bytes, eq_bytes, bytes_key}
use rustgo.Prelude.Dict.{Dict, get, insert, erase, retain}
use rustgo.Protocol.Limits.{max_client_name_bytes, max_session_id_bytes, max_binding_token_bytes}

abbrev pub binding_token_bytes : ℕ
binding_token_bytes = 32

abbrev pub max_token_generation_attempts : ℕ
max_token_generation_attempts = 16

pub data ChannelKind : Type 0 where
  tcp : (tunnel_id connection_id : ℕ) → ChannelKind
  udp : (tunnel_id channel_id : ℕ) → ChannelKind

unfoldable pub same_kind : ChannelKind → ChannelKind → Bool
same_kind (tcp a b) (tcp c d) = a == c && b == d
same_kind (udp a b) (udp c d) = a == c && b == d
same_kind _ _ = false

pub same_kind_iff : (a b : ChannelKind) → (same_kind a b ≡ true) ↔ (a ≡ b)
unfolding same_kind
same_kind_iff (tcp a b) (tcp c d) = ground arith
same_kind_iff (udp a b) (udp c d) = ground arith
same_kind_iff (tcp a b) (udp c d) = ground arith
same_kind_iff (udp a b) (tcp c d) = ground arith

pub record ChannelBinding : Type 0 where
  pub client_id : Bytes
  pub session_id : Bytes
  pub channel_kind : ChannelKind

pub record PendingBinding : Type 0 where
  pub channel_kind : ChannelKind
  pub expires_at : ℕ

pub record ChannelBindingStore : Type 0 where
  pub client_id : Bytes
  pub session_id : Bytes
  pub capacity : ℕ
  pub time_to_live : ℕ
  pub pending : Dict Bytes PendingBinding

pub data BindingError : Type 0 where
  invalid_configuration : BindingError
  capacity_reached : BindingError
  entropy_unavailable : BindingError
  rejected : BindingError

abbrev pub is_some : {A : Type 0} → Option A → Bool
is_some none = false
is_some (some a) = true

-- `ChannelBindingStore::new`
unfoldable pub new_store :
    (checked_add : ℕ → ℕ → Option ℕ)
    → (now : ℕ) → (client_id session_id : Bytes) → (capacity time_to_live : ℕ)
    → Result BindingError ChannelBindingStore
new_store checked_add now client_id session_id capacity time_to_live =
    if length client_id == 0
      || ltb max_client_name_bytes (length client_id)
      || length session_id == 0
      || ltb max_session_id_bytes (length session_id)
      || capacity == 0
      || time_to_live == 0
      || not (is_some (checked_add now time_to_live))
    then err invalid_configuration
    else ok (record {
      client_id = client_id;
      session_id = session_id;
      capacity = capacity;
      time_to_live = time_to_live;
      pending = [];
    })

-- The loop of `issue`, with the number of its attempts.
unfoldable pub issue_token :
    (attempts : ℕ)
    → (draws : ℕ → Option Bytes) → (drawn : ℕ) → ChannelBindingStore
    → PendingBinding
    → Result BindingError Bytes × ChannelBindingStore
unfolding get insert
issue_token zero draws drawn self binding = (err entropy_unavailable, self)
issue_token (suc attempts) draws drawn self binding =
    let rest = issue_token attempts draws (suc drawn) self binding in
    elim (draws drawn) [
      | none ↦ (err entropy_unavailable, self)
      | some token ↦ if is_some (get self.pending token) then rest else (
        (if leb (length token) max_binding_token_bytes
            then ok token
            else err invalid_configuration),
        record self { pending = insert self.pending token binding },
      )
    ]

abbrev pub lives : (now : ℕ) → PendingBinding → Bool
lives now binding = ltb now binding.expires_at

-- The bindings that have expired are dropped.
abbrev pub purge : (now : ℕ) → ChannelBindingStore → ChannelBindingStore
purge now self = record self { pending = retain (lives now) self.pending }

unfoldable pub issue :
    (checked_add : ℕ → ℕ → Option ℕ)
    → (draws : ℕ → Option Bytes) → (now : ℕ) → ChannelBindingStore
    → ChannelKind
    → Result BindingError Bytes × ChannelBindingStore
unfolding issue_token retain
issue checked_add draws now self channel_kind =
    let live = purge now self in
    if leb self.capacity (length live.pending)
    then (err capacity_reached, live)
    else elim (checked_add now self.time_to_live) [
      | none ↦ (err invalid_configuration, live)
      | some expires_at ↦
          issue_token max_token_generation_attempts draws 0 live
            (record { channel_kind = channel_kind; expires_at = expires_at })
    ]

unfoldable pub recognizes : ChannelBindingStore → (token : Bytes) → Bool
unfolding get
recognizes self token = length token == binding_token_bytes && is_some (get self.pending token)

unfoldable pub revoke :
    ChannelBindingStore → ChannelKind → (token : Bytes) → Bool × ChannelBindingStore
unfolding get erase same_kind
revoke self channel_kind token =
    if not (length token == binding_token_bytes)
    then (false, self)
    else elim (get self.pending token) [
      | none ↦ (false, self)
      | some binding ↦
          if same_kind binding.channel_kind channel_kind
          then (true, record self { pending = erase self.pending token })
          else (false, self)
    ]

unfoldable pub redeem :
    (now : ℕ)
    → ChannelBindingStore
    → (client_id session_id : Bytes) → ChannelKind
    → (token : Bytes) → Result BindingError ChannelBinding × ChannelBindingStore
unfolding get erase same_kind eq_bytes
redeem now self client_id session_id channel_kind token =
    if not (length token == binding_token_bytes)
    then (err rejected, self)
    else elim (get self.pending token) [
      | none ↦ (err rejected, record self { pending = erase self.pending token })
      | some pending ↦ (
        (if leb pending.expires_at now
              || not (eq_bytes client_id self.client_id)
              || not (eq_bytes session_id self.session_id)
              || not (same_kind channel_kind pending.channel_kind)
            then err rejected
            else ok (record {
              client_id = self.client_id;
              session_id = self.session_id;
              channel_kind = channel_kind;
            })),
        record self { pending = erase self.pending token },
      )
    ]
