-- ===== src/Transport/Binding/Steps.antt =====
-- The operations of a store as steps, and how `issue` and `revoke` end.
use rustgo.Prelude.{
  ℕ, zero, suc, Option, none, some, List, [], ◌∷◌, length, leb, ◌==◌, if◌then◌else◌, Result, ok,
  err, ◌≡◌, ◌⊎◌, inl, inr, refl, Bool-cases, Option-cases,
}
use rustgo.Prelude.Bytes.{Bytes, bytes_key}
use rustgo.Prelude.Dict.{get, insert, erase}
use rustgo.Protocol.Limits.{max_binding_token_bytes}
use rustgo.Transport.Binding.{
  binding_token_bytes, ChannelKind, same_kind, PendingBinding, ChannelBindingStore, BindingError,
  invalid_configuration, entropy_unavailable, issue_token, issue, revoke, redeem,
}

-- What is done with a store.
pub data StoreStep : Type 0 where
  issued : (draws : ℕ → Option Bytes) → (now : ℕ) → ChannelKind → StoreStep
  revoked : ChannelKind → (token : Bytes) → StoreStep
  redeemed : (now : ℕ) → (client session : Bytes) → ChannelKind → (token : Bytes) → StoreStep

abbrev pub some_token : Result BindingError Bytes → Option Bytes
some_token (ok token) = some token
some_token (err e) = none

-- The store after a step, and the token that the step issued.
unfoldable pub step :
    (checked_add : ℕ → ℕ → Option ℕ)
    → ChannelBindingStore
    → StoreStep
    → Option Bytes × ChannelBindingStore
unfolding issue revoke redeem
step checked_add s (issued draws now kind) =
    (some_token (issue checked_add draws now s kind).0, (issue checked_add draws now s kind).1)
step checked_add s (revoked kind token) = (none, (revoke s kind token).1)
step checked_add s (redeemed now client session kind token) =
    (none, (redeem now s client session kind token).1)

unfoldable pub run :
    (checked_add : ℕ → ℕ → Option ℕ) → ChannelBindingStore → List StoreStep → ChannelBindingStore
unfolding step
run checked_add s [] = s
run checked_add s (x ∷ xs) = run checked_add (step checked_add s x).1 xs

-- A revocation takes the token, or changes nothing.
pub revoke-erase :
    (s : ChannelBindingStore) (kind : ChannelKind) (token : Bytes)
    → (revoke s kind token).1
      ≡ (if (revoke s kind token).0 then record s { pending = erase s.pending token } else s)
unfolding revoke
revoke-erase s kind token = elim (Bool-cases (length token == binding_token_bytes)) [
  | inr other ↦ rw (revoke, other) refl
  | inl size ↦ elim (Option-cases (get s.pending token)) [
    | inl missing ↦ rw (revoke, size, missing) refl
    | inr (p, at) ↦ elim (Bool-cases (same_kind p.channel_kind kind)) [
      | inl same ↦ rw (revoke, size, at, same) refl
      | inr apart ↦ rw (revoke, size, at, apart) refl
    ]
  ]
]

-- The answer for an issued token.
abbrev pub fitting : Bytes → Result BindingError Bytes
fitting token =
    if leb (length token) max_binding_token_bytes then ok token else err invalid_configuration

-- A token is issued under a draw that was not pending, or nothing changes.
pub issue_token-cases :
    (attempts : ℕ) (draws : ℕ → Option Bytes) (drawn : ℕ) (s : ChannelBindingStore)
    (p : PendingBinding)
    → (issue_token attempts draws drawn s p ≡ (err entropy_unavailable, s))
      ⊎ ((token : Bytes) × (i : ℕ) × (draws i ≡ some token)
          × (get s.pending token ≡ none)
          × (issue_token attempts draws drawn s p
              ≡ (fitting token, record s { pending = insert s.pending token p })))
unfolding issue_token
issue_token-cases zero draws drawn s p = inl refl
issue_token-cases (suc attempts) draws drawn s p = elim (Option-cases (draws drawn)) [
  | inl failed ↦ inl (rw (issue_token, failed) refl)
  | inr (token, is) ↦ elim (Option-cases (get s.pending token)) [
    | inr (q, taken) ↦
        rw (issue_token, is, taken) (issue_token-cases attempts draws (suc drawn) s p)
    | inl free ↦ inr (token, drawn, is, free, rw (issue_token, is, free) refl)
  ]
]
