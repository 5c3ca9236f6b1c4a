-- ===== src/Transport/Binding/Redeem.antt =====
-- What `redeem` accepts, and what it takes from the store.
use rustgo.Prelude.{
  ℕ, ◌<◌, none, some, length, ◌==◌, if◌then◌else◌, ok, err, ◌≡◌, ◌↔◌, inl, inr, refl, Bool-cases,
  Option-cases, arith,
}
use rustgo.Prelude.Bytes.{Bytes, eq_bytes_iff, bytes_key}
use rustgo.Prelude.Dict.{get, erase}
use rustgo.Transport.Binding.{
  binding_token_bytes, ChannelKind, same_kind_iff, ChannelBinding, PendingBinding,
  ChannelBindingStore, rejected, redeem,
}

-- What a presentation of a pending token must meet.
Grants :
    (now : ℕ)
    → PendingBinding
    → ChannelBindingStore
    → (client session : Bytes) → ChannelKind
    → ChannelBinding
    → Type 0
Grants now p s client session kind b =
    (now < p.expires_at)
    × (client ≡ s.client_id)
    × (session ≡ s.session_id)
    × (kind ≡ p.channel_kind)
    × (b ≡ record { client_id = client; session_id = session; channel_kind = kind })

pub redeem-unknown :
    (now : ℕ) (s : ChannelBindingStore) (client session : Bytes) (kind : ChannelKind)
    (token : Bytes)
    → get s.pending token ≡ none
    → (redeem now s client session kind token).0 ≡ err rejected
unfolding redeem
redeem-unknown now s client session kind token missing = rw (redeem, missing) (ground arith)

redeem-known_iff :
    (now : ℕ) (s : ChannelBindingStore) (client session : Bytes) (kind : ChannelKind)
    (token : Bytes) (b : ChannelBinding) (p : PendingBinding)
    → get s.pending token ≡ some p
    → ((redeem now s client session kind token).0 ≡ ok b)
      ↔ ((length token ≡ 32) × Grants now p s client session kind b)
unfolding redeem Grants
redeem-known_iff now s client session kind token b p at =
    rw (redeem, at)
      (ground (
        arith,
        eq_bytes_iff client s.client_id,
        eq_bytes_iff session s.session_id,
        same_kind_iff kind p.channel_kind,
      ))

-- A token is redeemed exactly if it has 32 bytes and is pending, its binding has not expired, and the
-- client, the session and the channel are those of the binding; the answer names those.
pub redeem_ok_iff :
    (now : ℕ) (s : ChannelBindingStore) (client session : Bytes) (kind : ChannelKind)
    (token : Bytes) (b : ChannelBinding)
    → ((redeem now s client session kind token).0 ≡ ok b) ↔ (
        (length token ≡ 32)
        × ((p : PendingBinding) × (get s.pending token ≡ some p)
            × (now < p.expires_at)
            × (client ≡ s.client_id)
            × (session ≡ s.session_id)
            × (kind ≡ p.channel_kind)
            × (b ≡ record { client_id = client; session_id = session; channel_kind = kind })))
unfolding Grants
redeem_ok_iff now s client session kind token b = (
  λ granted. elim (Option-cases (get s.pending token)) [
    | inl missing ↦ absurd (ground (arith, redeem-unknown now s client session kind token missing))
    | inr (p, at) ↦
        let (size, rest) = (redeem-known_iff now s client session kind token b p at).0 granted in
        (size, (p, at, rest.0, rest.1, rest.2, rest.3, rest.4))
  ],
  λ (size, found).
      let (p, at, alive, same_client, same_session, same_channel, answer) = found in
      (redeem-known_iff now s client session kind token b p at).1
        (size, (alive, same_client, same_session, same_channel, answer)),
)

-- A redemption changes nothing of the store but its pending tokens, of which it takes the token.
pub redeem-erase :
    (now : ℕ) (s : ChannelBindingStore) (client session : Bytes) (kind : ChannelKind)
    (token : Bytes)
    → (redeem now s client session kind token).1 ≡ (
        if length token == binding_token_bytes
        then record s { pending = erase s.pending token }
        else s)
unfolding redeem
redeem-erase now s client session kind token =
    elim (Bool-cases (length token == binding_token_bytes)) [
      | inr other ↦ rw (redeem, other) refl
      | inl size ↦ elim (Option-cases (get s.pending token)) [
        | inl missing ↦ rw (redeem, size, missing) refl
        | inr (p, at) ↦ rw (redeem, size, at) refl
      ]
    ]
