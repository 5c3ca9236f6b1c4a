-- ===== src/Transport/Binding/Issue.antt =====
-- What an issued token is good for.
use rustgo.Prelude.{
  ℕ, ◌<◌, false, Option, none, some, length, ltb, leb, if◌then◌else◌, ok, err, ◌≡◌, ◌⊎◌, inl, inr,
  refl, ◌∙◌, ap, Bool-cases, Option-cases, arith,
}
use rustgo.Prelude.Bytes.{Bytes, eq_bytes_refl, bytes_key}
use rustgo.Prelude.Dict.{get, insert, retain, get-insert}
use rustgo.Transport.Binding.{
  ChannelKind, same_kind_iff, PendingBinding, ChannelBindingStore, BindingError, rejected,
  capacity_reached, invalid_configuration, entropy_unavailable, issue_token, lives, purge, issue,
  recognizes, redeem,
}
use rustgo.Transport.Binding.Steps.{fitting, issue_token-cases}

-- How an issue ends: with an error once the expired bindings are dropped, or with a draw that was not pending.
pub issue-cases :
    (checked_add : ℕ → ℕ → Option ℕ) (draws : ℕ → Option Bytes) (now : ℕ) (s : ChannelBindingStore)
    (kind : ChannelKind)
    → ((e : BindingError) × (issue checked_add draws now s kind ≡ (err e, purge now s)))
      ⊎ ((token : Bytes) × (i : ℕ) × (expires_at : ℕ) × (draws i ≡ some token)
          × (checked_add now s.time_to_live ≡ some expires_at)
          × (length (retain (lives now) s.pending) < s.capacity)
          × (get (retain (lives now) s.pending) token ≡ none)
          × (issue checked_add draws now s kind ≡ (
            fitting token,
            record s {
              pending =
                  insert
                    (retain (lives now) s.pending)
                    token
                    (record { channel_kind = kind; expires_at = expires_at });
            },
          )))
unfolding issue
issue-cases checked_add draws now s kind =
    let live = purge now s in
    elim (Bool-cases (leb s.capacity (length live.pending))) [
      | inl full ↦ inl (capacity_reached, rw (issue, full) refl)
      | inr room ↦ elim (Option-cases (checked_add now s.time_to_live)) [
        | inl never ↦ inl (invalid_configuration, rw (issue, room, never) refl)
        | inr (expires_at, sum) ↦
            let p : PendingBinding = record { channel_kind = kind; expires_at = expires_at } in
            let same : issue checked_add draws now s kind ≡ issue_token 16 draws 0 live p =
              rw (issue, room, sum) refl in
            elim (issue_token-cases 16 draws 0 live p) [
              | inl failed ↦ inl (entropy_unavailable, same ∙ failed)
              | inr (token, i, drew, free, is) ↦
                  inr (token, i, expires_at, drew, sum, ground arith, free, same ∙ is)
            ]
      ]
    ]

redeem-pending :
    (now : ℕ) (s : ChannelBindingStore) (token : Bytes) (p : PendingBinding)
    → length token ≡ 32
    → get s.pending token ≡ some p
    → (redeem now s s.client_id s.session_id p.channel_kind token).0 ≡ (
        if ltb now p.expires_at
        then ok (record {
          client_id = s.client_id;
          session_id = s.session_id;
          channel_kind = p.channel_kind;
        })
        else err rejected)
unfolding redeem
redeem-pending now s token p size at =
    rw (redeem, at, size, eq_bytes_refl s.client_id, eq_bytes_refl s.session_id)
      (ground (arith, same_kind_iff p.channel_kind p.channel_kind))

-- A token that `issue` gives has 32 bytes, if the drawn tokens have, and it was not pending. Presented
-- for its channel by its session, it is accepted before its time is over, and rejected from then on.
pub issue-redeem :
    (checked_add : ℕ → ℕ → Option ℕ) (draws : ℕ → Option Bytes) (now : ℕ) (s : ChannelBindingStore)
    (kind : ChannelKind) (token : Bytes) (expires_at later : ℕ)
    → ((i : ℕ) (drawn : Bytes) → draws i ≡ some drawn → length drawn ≡ 32)
    → (issue checked_add draws now s kind).0 ≡ ok token
    → checked_add now s.time_to_live ≡ some expires_at
    → (length token ≡ 32)
      × (recognizes (purge now s) token ≡ false)
      × ((redeem later (issue checked_add draws now s kind).1 s.client_id s.session_id kind token).0
          ≡ (if ltb later expires_at
              then ok (record {
                client_id = s.client_id;
                session_id = s.session_id;
                channel_kind = kind;
              })
              else err rejected))
unfolding recognizes
issue-redeem checked_add draws now s kind token expires_at later sized answered sum =
    elim (issue-cases checked_add draws now s kind) [
      | inl (e, is) ↦ absurd (ground (arith, ap (λ r. r.0) is))
      | inr (new, i, until, drew, is_sum, _, free, is) ↦
          let size : length new ≡ 32 = sized i new drew in
          let same : new ≡ token = ground (arith, ap (λ r. r.0) is) in
          let end : until ≡ expires_at = ground (arith, is_sum, sum) in
          let p : PendingBinding = record { channel_kind = kind; expires_at = until } in
          rw (← same, ← end)
            (
              size,
              rw (recognizes, free) (ground arith),
              rw is (
                  redeem-pending later _ new p size (
                    get-insert (retain (lives now) s.pending) new new p
                    ∙ rw (eq_bytes_refl new) refl)),
            )
    ]

pub issue-pending :
    (checked_add : ℕ → ℕ → Option ℕ) (draws : ℕ → Option Bytes) (now : ℕ) (s : ChannelBindingStore)
    (kind : ChannelKind) (token : Bytes)
    → ((i : ℕ) (drawn : Bytes) → draws i ≡ some drawn → length drawn ≡ 32)
    → (issue checked_add draws now s kind).0 ≡ ok token
    → (p : PendingBinding) × (length token ≡ 32)
      × (get (issue checked_add draws now s kind).1.pending token ≡ some p)
      × (p.channel_kind ≡ kind)
issue-pending checked_add draws now s kind token sized answered =
    elim (issue-cases checked_add draws now s kind) [
      | inl (e, is) ↦ absurd (ground (arith, ap (λ r. r.0) is))
      | inr (new, i, until, drew, _, _, _, is) ↦
          let size : length new ≡ 32 = sized i new drew in
          let same : new ≡ token = ground (arith, ap (λ r. r.0) is) in
          let p : PendingBinding = record { channel_kind = kind; expires_at = until } in
          let held =
            get-insert (retain (lives now) s.pending) new new p ∙ rw (eq_bytes_refl new) refl in
          rw (← same) (p, size, rw is held, refl)
    ]
