-- ===== src/Transport/Binding/Invariant.antt =====
-- What holds of a binding store whatever is done with it.
use rustgo.Prelude.{
  ℕ, ◌≤◌, Bool, true, false, Option, List, [], ◌∷◌, length, ◌==◌, if◌then◌else◌, ok, ◌≡◌, inl, inr,
  refl, ◌∙◌, sym, ap, subst, arith,
}
use rustgo.Prelude.Bytes.{Bytes, bytes_key}
use rustgo.Prelude.Dict.{
  erase, retain, IsDict, retain-IsDict, erase-IsDict, insert-IsDict, length-insert, length-retain,
  length-erase_le,
}
use rustgo.Transport.Binding.{
  binding_token_bytes, ChannelKind, PendingBinding, ChannelBindingStore, lives, purge, new_store,
  issue, revoke,
}
use rustgo.Transport.Binding.Redeem.{redeem-erase}
use rustgo.Transport.Binding.Steps.{StoreStep, issued, revoked, redeemed, step, run, revoke-erase}
use rustgo.Transport.Binding.Issue.{issue-cases}

-- No token is pending twice, and the pending tokens are within the store's capacity.
pub record IsStore (s : ChannelBindingStore) : Type 0 where
  pub dict : IsDict s.pending
  pub bound : length s.pending ≤ s.capacity

-- The two stores belong to the same session, with the same limits.
pub record Same (s t : ChannelBindingStore) : Type 0 where
  pub client_id : t.client_id ≡ s.client_id
  pub session_id : t.session_id ≡ s.session_id
  pub capacity : t.capacity ≡ s.capacity
  pub time_to_live : t.time_to_live ≡ s.time_to_live

purge-IsStore : (now : ℕ) (s : ChannelBindingStore) → IsStore s → IsStore (purge now s)
purge-IsStore now s v = record {
  dict = retain-IsDict (lives now) s.pending v.dict;
  bound = omega (arith, v.bound, length-retain (lives now) s.pending);
}

erase-IsStore :
    (s : ChannelBindingStore) (token : Bytes)
    → IsStore s
    → IsStore (record s { pending = erase s.pending token })
erase-IsStore s token v = record {
  dict = erase-IsDict s.pending token v.dict;
  bound = omega (arith, v.bound, length-erase_le s.pending token);
}

erase_if-IsStore :
    (b : Bool) (s : ChannelBindingStore) (token : Bytes)
    → IsStore s
    → IsStore (if b then record s { pending = erase s.pending token } else s)
      × Same s (if b then record s { pending = erase s.pending token } else s)
erase_if-IsStore true s token v = (
  erase-IsStore s token v,
  record { client_id = refl; session_id = refl; capacity = refl; time_to_live = refl },
)
erase_if-IsStore false s token v =
    (v, record { client_id = refl; session_id = refl; capacity = refl; time_to_live = refl })

issue-IsStore :
    (checked_add : ℕ → ℕ → Option ℕ) (draws : ℕ → Option Bytes) (now : ℕ) (s : ChannelBindingStore)
    (kind : ChannelKind)
    → IsStore s
    → IsStore (issue checked_add draws now s kind).1 × Same s (issue checked_add draws now s kind).1
issue-IsStore checked_add draws now s kind v = elim (issue-cases checked_add draws now s kind) [
  | inl (e, is) ↦ rw is (
    purge-IsStore now s v,
    record { client_id = refl; session_id = refl; capacity = refl; time_to_live = refl },
  )
  | inr (token, i, expires_at, _, _, room, free, is) ↦
      let live = retain (lives now) s.pending in
      let p : PendingBinding = record { channel_kind = kind; expires_at = expires_at } in
      rw is (
        record {
          dict = insert-IsDict live token p (retain-IsDict (lives now) s.pending v.dict);
          bound = omega (arith, room, length-insert live token p free);
        },
        record { client_id = refl; session_id = refl; capacity = refl; time_to_live = refl },
      )
]

step-IsStore :
    (checked_add : ℕ → ℕ → Option ℕ) (s : ChannelBindingStore) (x : StoreStep)
    → IsStore s
    → IsStore (step checked_add s x).1 × Same s (step checked_add s x).1
unfolding step
step-IsStore checked_add s (issued draws now kind) v = issue-IsStore checked_add draws now s kind v
step-IsStore checked_add s (revoked kind token) v =
    rw (revoke-erase s kind token) (erase_if-IsStore (revoke s kind token).0 s token v)
step-IsStore checked_add s (redeemed now client session kind token) v =
    rw (redeem-erase now s client session kind token)
      (erase_if-IsStore (length token == binding_token_bytes) s token v)

run-IsStore :
    (checked_add : ℕ → ℕ → Option ℕ) (xs : List StoreStep) (s : ChannelBindingStore)
    → IsStore s
    → IsStore (run checked_add s xs) × Same s (run checked_add s xs)
unfolding run
run-IsStore checked_add [] s v =
    (v, record { client_id = refl; session_id = refl; capacity = refl; time_to_live = refl })
run-IsStore checked_add (x ∷ xs) s v =
    let next = (step checked_add s x).1 in
    let (w, first) = step-IsStore checked_add s x v in
    let (u, rest) = run-IsStore checked_add xs next w in
    (
      u,
      record {
        client_id = rest.client_id ∙ first.client_id;
        session_id = rest.session_id ∙ first.session_id;
        capacity = rest.capacity ∙ first.capacity;
        time_to_live = rest.time_to_live ∙ first.time_to_live;
      },
    )

new_store-capacity :
    (checked_add : ℕ → ℕ → Option ℕ) (now : ℕ) (client session : Bytes) (capacity time_to_live : ℕ)
    (s : ChannelBindingStore)
    → new_store checked_add now client session capacity time_to_live ≡ ok s
    → record {
      client_id = client;
      session_id = session;
      capacity = capacity;
      time_to_live = time_to_live;
      pending = [];
    }
      ≡ s
unfolding new_store
new_store-capacity checked_add now client session capacity time_to_live s made = ground arith

empty-IsStore :
    (client session : Bytes) (capacity time_to_live : ℕ)
    → IsStore (record {
      client_id = client;
      session_id = session;
      capacity = capacity;
      time_to_live = time_to_live;
      pending = [];
    })
unfolding IsDict
empty-IsStore client session capacity time_to_live = record { dict = tt; bound = omega arith }

-- Whatever is done with a store that `new` gave: it goes on to belong to its client and its session, and
-- never has more pending tokens than the capacity it was given.
pub run-new_store :
    (checked_add : ℕ → ℕ → Option ℕ) (now : ℕ) (client session : Bytes) (capacity time_to_live : ℕ)
    (s : ChannelBindingStore) (xs : List StoreStep)
    → new_store checked_add now client session capacity time_to_live ≡ ok s
    → ((run checked_add s xs).client_id ≡ client)
      × ((run checked_add s xs).session_id ≡ session)
      × (length (run checked_add s xs).pending ≤ capacity)
run-new_store checked_add now client session capacity time_to_live s xs made =
    let is = new_store-capacity checked_add now client session capacity time_to_live s made in
    let start = subst IsStore is (empty-IsStore client session capacity time_to_live) in
    let (v, same) = run-IsStore checked_add xs s start in
    let fits : s.capacity ≡ capacity = ap (λ t. t.capacity) (sym is) in
    (
      same.client_id ∙ ap (λ t. t.client_id) (sym is),
      same.session_id ∙ ap (λ t. t.session_id) (sym is),
      omega (arith, v.bound, same.capacity, fits),
    )
