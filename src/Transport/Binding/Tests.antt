-- ===== src/Transport/Binding/Tests.antt =====
-- A store of two tokens that live 10 nanoseconds.
use rustgo.Prelude.{
  ℕ, zero, suc, ◌+◌, ◌<◌, ◌≤◌, false, Option, some, List, [], ◌∷◌, length, ltb, if◌then◌else◌, ok,
  err, ◌≡◌, ◌↔◌, refl, arith,
}
use rustgo.Prelude.Bytes.{Bytes, bytes_key}
use rustgo.Prelude.Dict.{get, insert}
use rustgo.Transport.Binding.{
  tcp, udp, ChannelBinding, PendingBinding, ChannelBindingStore, rejected, capacity_reached, purge,
  new_store, issue, recognizes, redeem,
}
use rustgo.Transport.Binding.Redeem.{redeem_ok_iff}
use rustgo.Transport.Binding.Steps.{StoreStep, issued, revoked, redeemed, run}
use rustgo.Transport.Binding.Once.{NeverIssued, redeem-redeem}
use rustgo.Transport.Binding.Issue.{issue-redeem}
use rustgo.Transport.Binding.Invariant.{run-new_store}

abbrev add : ℕ → ℕ → Option ℕ
add a b = some (a + b)

abbrev repeated : ℕ → ℕ → Bytes
repeated zero b = []
repeated (suc n) b = b ∷ repeated n b

abbrev drawn : ℕ → ℕ → Option Bytes
drawn b i = some (repeated 32 b)

drawn_sized : (b i : ℕ) (token : Bytes) → drawn b i ≡ some token → length token ≡ 32
drawn_sized b i token h = ground arith

abbrev client : Bytes
client = 97 ∷ []

abbrev session : Bytes
session = 1 ∷ 2 ∷ []

abbrev empty_store : ChannelBindingStore
empty_store = record {
  client_id = client;
  session_id = session;
  capacity = 2;
  time_to_live = 10;
  pending = [];
}

abbrev one_token : ChannelBindingStore
one_token = (issue add (drawn 7) 100 empty_store (tcp 1 5)).1

abbrev steps : List StoreStep
steps =
    issued (drawn 7) 100 (tcp 1 5)
    ∷ issued (drawn 8) 101 (udp 2 6)
    ∷ issued (drawn 9) 102 (tcp 1 6)
    ∷ revoked (udp 2 6) (repeated 32 8)
    ∷ redeemed 104 client session (udp 2 6) (repeated 32 7)
    ∷ []

new_store_test : new_store add 0 client session 2 10 ≡ ok empty_store
unfolding new_store
new_store_test = refl

full_test :
    (issue add
      (drawn 9)
      102
      (run add empty_store (issued (drawn 7) 100 (tcp 1 5) ∷ issued (drawn 8) 101 (udp 2 6) ∷ []))
      (tcp 1 6)).0
    ≡ err capacity_reached
unfolding issue run insert
full_test = refl

run-new_store_example :
    ((run add empty_store steps).client_id ≡ client)
    × ((run add empty_store steps).session_id ≡ session)
    × (length (run add empty_store steps).pending ≤ 2)
run-new_store_example = run-new_store add 0 client session 2 10 empty_store steps new_store_test

issued_test : (issue add (drawn 7) 100 empty_store (tcp 1 5)).0 ≡ ok (repeated 32 7)
unfolding issue
issued_test = refl

issue-redeem_example :
    (length (repeated 32 7) ≡ 32)
    × (recognizes (purge 100 empty_store) (repeated 32 7) ≡ false)
    × ((redeem 109 one_token client session (tcp 1 5) (repeated 32 7)).0 ≡ (
        if ltb 109 110
        then ok (record { client_id = client; session_id = session; channel_kind = tcp 1 5 })
        else err rejected))
issue-redeem_example =
    issue-redeem add (drawn 7) 100 empty_store (tcp 1 5) (repeated 32 7) 110 109 (drawn_sized 7)
      issued_test refl

-- The token is presented for another channel; then a second one is issued.
abbrev presented : ChannelBindingStore
presented = (redeem 103 one_token client session (udp 1 5) (repeated 32 7)).1

never_again : NeverIssued add presented (issued (drawn 8) 104 (tcp 1 6) ∷ []) (repeated 32 7)
unfolding NeverIssued redeem issue insert
never_again = (λ same. ground arith, tt)

redeem-redeem_example :
    (redeem 105
      (run add presented (issued (drawn 8) 104 (tcp 1 6) ∷ []))
      client
      session
      (tcp 1 5)
      (repeated 32 7)).0
    ≡ err rejected
redeem-redeem_example =
    redeem-redeem add one_token 103 client session (udp 1 5) (repeated 32 7)
      (issued (drawn 8) 104 (tcp 1 6) ∷ []) 105 client session (tcp 1 5) refl never_again

abbrev granted : ChannelBinding
granted = record { client_id = client; session_id = session; channel_kind = tcp 1 5 }

redeem_ok_iff_example :
    ((redeem 103 one_token client session (tcp 1 5) (repeated 32 7)).0 ≡ ok granted) ↔ (
      (length (repeated 32 7) ≡ 32)
      × ((p : PendingBinding) × (get one_token.pending (repeated 32 7) ≡ some p)
          × (103 < p.expires_at)
          × (client ≡ one_token.client_id)
          × (session ≡ one_token.session_id)
          × (tcp 1 5 ≡ p.channel_kind)
          × (granted
              ≡ record { client_id = client; session_id = session; channel_kind = tcp 1 5 })))
redeem_ok_iff_example = redeem_ok_iff 103 one_token client session (tcp 1 5) (repeated 32 7) granted
