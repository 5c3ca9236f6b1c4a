-- ===== src/Transport/Binding/Once.antt =====
-- A binding token serves once: it is rejected for good when it was presented.
use rustgo.Prelude.{
  ℕ, Bool, true, false, Option, none, some, List, [], ◌∷◌, length, leb, ◌==◌, if◌then◌else◌, ok,
  err, ◌≡◌, ◌≢◌, inl, inr, refl, ◌∙◌, ap, Bool-cases, Option-cases, arith,
}
use rustgo.Prelude.Bytes.{Bytes, eq_bytes_iff, bytes_key}
use rustgo.Prelude.Dict.{get, erase, get-insert, get-erase, retain_absent}
use rustgo.Transport.Binding.{
  binding_token_bytes, ChannelKind, PendingBinding, ChannelBindingStore, rejected, issue_token,
  lives, purge, issue, revoke, redeem,
}
use rustgo.Transport.Binding.Redeem.{redeem-unknown, redeem-erase}
use rustgo.Transport.Binding.Steps.{
  StoreStep, issued, revoked, redeemed, some_token, step, run, revoke-erase, issue_token-cases,
}

-- No step issues the token.
unfoldable pub NeverIssued :
    (checked_add : ℕ → ℕ → Option ℕ)
    → ChannelBindingStore
    → List StoreStep
    → (token : Bytes) → Type 0
unfolding step
NeverIssued checked_add s [] token = Unit
NeverIssued checked_add s (x ∷ xs) token =
    ((step checked_add s x).0 ≢ some token)
    × NeverIssued checked_add (step checked_add s x).1 xs token

Absent : ChannelBindingStore → Bytes → Type 0
Absent s token = get s.pending token ≡ none

redeem-Absent :
    (now : ℕ) (s : ChannelBindingStore) (client session : Bytes) (kind : ChannelKind)
    (token : Bytes)
    → length token ≡ 32
    → Absent (redeem now s client session kind token).1 token
unfolding Absent
redeem-Absent now s client session kind token size =
    rw (redeem-erase now s client session kind token, size, get-erase s.pending token token)
      (ground (arith, eq_bytes_iff token token))

erase_if-Absent :
    (b : Bool) (s : ChannelBindingStore) (other token : Bytes)
    → Absent s token
    → Absent (if b then record s { pending = erase s.pending other } else s) token
unfolding Absent
erase_if-Absent true s other token absent = get-erase s.pending other token ∙ ground arith
erase_if-Absent false s other token absent = absent

purge-Absent :
    (now : ℕ) (s : ChannelBindingStore) (token : Bytes)
    → Absent s token
    → Absent (purge now s) token
unfolding Absent
purge-Absent now s token absent = retain_absent (lives now) s.pending token absent

issue_token-Absent :
    (attempts : ℕ) (draws : ℕ → Option Bytes) (drawn : ℕ) (s : ChannelBindingStore)
    (p : PendingBinding) (token : Bytes)
    → length token ≡ 32
    → Absent s token
    → (issue_token attempts draws drawn s p).0 ≢ ok token
    → Absent (issue_token attempts draws drawn s p).1 token
unfolding Absent
issue_token-Absent attempts draws drawn s p token size absent other =
    elim (issue_token-cases attempts draws drawn s p) [
      | inl same ↦ rw same absent
      | inr (new, i, _, free, same) ↦
          let apart : new ≢ token = λ e. other (ap (λ r. r.0) same ∙ rw e (ground arith)) in
          rw (same, get-insert s.pending new token p) (ground (arith, eq_bytes_iff new token))
    ]

issue-Absent :
    (checked_add : ℕ → ℕ → Option ℕ) (draws : ℕ → Option Bytes) (now : ℕ) (s : ChannelBindingStore)
    (kind : ChannelKind) (token : Bytes)
    → length token ≡ 32
    → Absent s token
    → (issue checked_add draws now s kind).0 ≢ ok token
    → Absent (issue checked_add draws now s kind).1 token
unfolding issue
issue-Absent checked_add draws now s kind token size absent other =
    let live = purge now s in
    let gone = purge-Absent now s token absent in
    elim (Bool-cases (leb s.capacity (length live.pending))) [
      | inl full ↦ rw (issue, full) gone
      | inr room ↦ elim (Option-cases (checked_add now s.time_to_live)) [
        | inl never ↦ rw (issue, room, never) gone
        | inr (expires_at, sum) ↦
            let p : PendingBinding = record { channel_kind = kind; expires_at = expires_at } in
            let same : issue checked_add draws now s kind ≡ issue_token 16 draws 0 live p =
              rw (issue, room, sum) refl in
            rw same (
              issue_token-Absent 16 draws 0 live p token size gone
                (λ e. other (ap (λ r. r.0) same ∙ e)))
      ]
    ]

step-Absent :
    (checked_add : ℕ → ℕ → Option ℕ) (s : ChannelBindingStore) (x : StoreStep) (token : Bytes)
    → length token ≡ 32
    → Absent s token
    → (step checked_add s x).0 ≢ some token
    → Absent (step checked_add s x).1 token
unfolding step
step-Absent checked_add s (issued draws now kind) token size absent other =
    issue-Absent checked_add draws now s kind token size absent (λ e. other (ap some_token e))
step-Absent checked_add s (revoked kind gone) token size absent other =
    rw (revoke-erase s kind gone) (erase_if-Absent (revoke s kind gone).0 s gone token absent)
step-Absent checked_add s (redeemed now client session kind used) token size absent other =
    rw (redeem-erase now s client session kind used)
      (erase_if-Absent (length used == binding_token_bytes) s used token absent)

run-Absent :
    (checked_add : ℕ → ℕ → Option ℕ) (xs : List StoreStep) (s : ChannelBindingStore) (token : Bytes)
    → length token ≡ 32
    → Absent s token
    → NeverIssued checked_add s xs token
    → Absent (run checked_add s xs) token
unfolding run NeverIssued
run-Absent checked_add [] s token size absent never = absent
run-Absent checked_add (x ∷ xs) s token size absent never =
    run-Absent checked_add xs (step checked_add s x).1 token size
      (step-Absent checked_add s x token size absent never.0) never.1

-- A token of 32 bytes that was presented once, with whatever result, is rejected for good: after whatever is then
-- done with the store, unless that issues the same token again.
pub redeem-redeem :
    (checked_add : ℕ → ℕ → Option ℕ) (s : ChannelBindingStore) (now : ℕ) (client session : Bytes)
    (kind : ChannelKind) (token : Bytes) (xs : List StoreStep) (later : ℕ)
    (client' session' : Bytes) (kind' : ChannelKind)
    → length token ≡ 32
    → NeverIssued checked_add (redeem now s client session kind token).1 xs token
    → (redeem later
        (run checked_add (redeem now s client session kind token).1 xs)
        client'
        session'
        kind'
        token).0
      ≡ err rejected
unfolding Absent
redeem-redeem checked_add s now client session kind token xs later client' session' kind' size
      never =
    let after = (redeem now s client session kind token).1 in
    redeem-unknown later (run checked_add after xs) client' session' kind' token (
      run-Absent checked_add xs after token size
        (redeem-Absent now s client session kind token size) never)
