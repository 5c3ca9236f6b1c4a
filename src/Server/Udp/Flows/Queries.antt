-- ===== src/Server/Udp/Flows/Queries.antt =====
-- What `FlowTable` answers without a change: the traffic counters of a session and the list of its
-- sessions; and the table that holds nothing.
use mathlib.Core.Path.{fun_ext}
use rustgo.Prelude.{
  ℕ, suc, Bool, true, false, Option, none, some, List, [], ◌∷◌, ◌==◌, if◌then◌else◌, ◌≡◌, inl, inr,
  refl, ◌∙◌, sym, ap, Bool-cases, arith,
}
use rustgo.Prelude.Dict.{Dict, get, IsDict, nat_key}
use rustgo.Server.Udp.Flows.{
  FlowEntry, FlowTable, is_some, new_table, traffic_of, observed_traffic, clear, keys, session_ids,
}
use rustgo.Server.Udp.Flows.Queue.{Queue, has_id, find_key, Distinct, Linked, Refines}
use rustgo.Server.Udp.Flows.Insertion.{contains-has_id}

-- How often a number stands in a list.
unfoldable pub occurrences : List ℕ → ℕ → ℕ
occurrences [] i = 0
occurrences (j ∷ js) i = let rest = occurrences js i in if j == i then suc rest else rest

unfoldable pub ids : Queue → List ℕ
ids [] = []
ids (f ∷ q) = f.session_id ∷ ids q

unfoldable pub traffic_at : Queue → ℕ → Option ℕ
traffic_at [] i = none
traffic_at (f ∷ q) i =
    let rest = traffic_at q i in if f.session_id == i then f.observed_traffic else rest

occurrences-keys :
    (d : Dict ℕ FlowEntry) (i : ℕ)
    → IsDict d
    → occurrences (keys d) i ≡ (if is_some (get d i) then 1 else 0)
unfolding occurrences keys get IsDict
occurrences-keys [] i dict = refl
occurrences-keys ((k, e) ∷ d) i dict = elim (Bool-cases (k == i)) [
  | inl here ↦
      let same : k ≡ i = ground arith in
      let gone : get d i ≡ none = ap (get d) (sym same) ∙ dict.0 in
      rw (here, occurrences-keys d i dict.1, gone) refl
  | inr there ↦ rw (there, occurrences-keys d i dict.1) refl
]

occurrences-ids :
    (q : Queue) (i : ℕ) → Distinct q → occurrences (ids q) i ≡ (if has_id q i then 1 else 0)
unfolding occurrences ids has_id Distinct
occurrences-ids [] i distinct = refl
occurrences-ids (f ∷ q) i distinct = elim (Bool-cases (f.session_id == i)) [
  | inl here ↦
      let same : f.session_id ≡ i = ground arith in
      let gone : has_id q i ≡ false = ap (has_id q) (sym same) ∙ distinct.0 in
      rw (here, occurrences-ids q i distinct.2, gone) refl
  | inr there ↦ rw (there, occurrences-ids q i distinct.2) refl
]

-- The table lists the sessions of the queue, each once, in whatever order.
pub session_ids-Refines :
    (t : FlowTable) (q : Queue) → Refines t q → occurrences (session_ids t) ≡ occurrences (ids q)
unfolding session_ids
session_ids-Refines t q r = fun_ext (λ i.
    occurrences-keys t.by_id i r.dict
    ∙ ap (λ b. if b then 1 else 0) (contains-has_id t q i r)
    ∙ sym (occurrences-ids q i r.distinct))

traffic_at-found :
    (d : Dict ℕ FlowEntry) (previous : Option ℕ) (q : Queue) (tail : Option ℕ) (i : ℕ)
    → Linked d previous q tail
    → has_id q i ≡ true
    → traffic_of (get d i) ≡ traffic_at q i
unfolding Linked has_id traffic_at
traffic_at-found d previous [] tail i l has = absurd (ground arith)
traffic_at-found d previous (f ∷ q) tail i l has = elim (Bool-cases (f.session_id == i)) [
  | inl here ↦
      let same : f.session_id ≡ i = ground arith in
      rw here (ap (λ k. traffic_of (get d k)) (sym same) ∙ ap traffic_of l.0)
  | inr there ↦ rw there (traffic_at-found d (some f.session_id) q tail i l.1 (ground arith))
]

traffic_at-missing : (q : Queue) (i : ℕ) → has_id q i ≡ false → traffic_at q i ≡ none
unfolding has_id traffic_at
traffic_at-missing [] i h = refl
traffic_at-missing (f ∷ q) i h = ground (arith, traffic_at-missing q i)

-- The counters of a session are those of its flow in the queue.
pub observed_traffic-Refines :
    (t : FlowTable) (q : Queue) (i : ℕ) → Refines t q → observed_traffic t i ≡ traffic_at q i
unfolding observed_traffic
observed_traffic-Refines t q i r = elim (Bool-cases (has_id q i)) [
  | inl has ↦ traffic_at-found t.by_id none q t.sweep_tail i r.linked has
  | inr missing ↦ rw (r.only i missing, traffic_at-missing q i missing) refl
]

pub new_table-Refines :
    (capacity : ℕ) (observe_traffic : Bool) → Refines (new_table capacity observe_traffic) []
unfolding new_table Linked Distinct IsDict has_id find_key get
new_table-Refines capacity observe_traffic = record {
  linked = refl;
  head = refl;
  distinct = tt;
  dict = tt;
  size = refl;
  only = λ i out. refl;
  flows = λ k. refl;
}

-- A table that is cleared is a new table with the same settings.
pub clear-Refines : (t : FlowTable) → Refines (clear t) []
unfolding clear new_table
clear-Refines t = new_table-Refines t.capacity t.observe_traffic
