-- ===== src/Server/Udp/Flows/Removal.antt =====
-- `FlowTable::remove` takes a flow out of the queue, wherever it stands.
use rustgo.Prelude.{
  ℕ, true, false, Option, none, some, [], ◌∷◌, length, ◌==◌, if◌then◌else◌, ◌≡◌, inl, inr, refl,
  ◌∙◌, sym, ap, Bool-cases, arith,
}
use rustgo.Prelude.Dict.{
  Dict, get, erase, map_some, nat_key, IsDict, get-erase, get-modify, length-erase, length-modify,
  erase-IsDict, modify-IsDict,
}
use rustgo.Server.Udp.Flows.{
  flow_key, FlowEntry, FlowTable, with_next, with_previous, modify_at, unlink, remove,
}
use rustgo.Server.Udp.Flows.Queue.{Queue, head_id, has_id, drop_id, entry_of, Linked, Refines}
use rustgo.Server.Udp.Flows.Links.{
  at_link, Unlinked, Linked-entry, Linked-drop_id, head_of-drop_id, head_kept-drop_id,
}
use rustgo.Server.Udp.Flows.Contents.{
  key_of, drop_id_absent, has_id-drop_id, length-drop_id, find_key-drop_id, Distinct-drop_id,
}

Linked-found :
    (d : Dict ℕ FlowEntry) (previous : Option ℕ) (q : Queue) (tail : Option ℕ) (i : ℕ)
    → Linked d previous q tail
    → has_id q i ≡ true
    → (e : FlowEntry) × (get d i ≡ some e) × (key_of q i ≡ some e.key)
unfolding Linked has_id key_of
Linked-found d previous [] tail i l has = absurd (ground arith)
Linked-found d previous (f ∷ q) tail i l has = elim (Bool-cases (f.session_id == i)) [
  | inl here ↦
      let same : f.session_id ≡ i = ground arith in
      (entry_of f previous (head_id q), ap (get d) (sym same) ∙ l.0, rw here refl)
  | inr there ↦
      let (e, at, key) = Linked-found d (some f.session_id) q tail i l.1 (ground arith) in
      (e, at, rw there key)
]

pub Refines-found :
    (t : FlowTable) (q : Queue) (i : ℕ)
    → Refines t q
    → has_id q i ≡ true
    → (e : FlowEntry) × (get t.by_id i ≡ some e) × (key_of q i ≡ some e.key)
Refines-found t q i r has = Linked-found t.by_id none q t.sweep_tail i r.linked has

get-modify_at :
    (link : Option ℕ) (f : FlowEntry → FlowEntry) (d : Dict ℕ FlowEntry) (j : ℕ)
    → get (modify_at link f d) j ≡ (if at_link link j then map_some f (get d j) else get d j)
get-modify_at none f d j = refl
get-modify_at (some i) f d j = get-modify d i j f

length-modify_at :
    (link : Option ℕ) (f : FlowEntry → FlowEntry) (d : Dict ℕ FlowEntry)
    → length (modify_at link f d) ≡ length d
length-modify_at none f d = refl
length-modify_at (some i) f d = length-modify d i f

modify_at-IsDict :
    (link : Option ℕ) (f : FlowEntry → FlowEntry) (d : Dict ℕ FlowEntry)
    → IsDict d
    → IsDict (modify_at link f d)
modify_at-IsDict none f d dict = dict
modify_at-IsDict (some i) f d dict = modify-IsDict d i f dict

-- The map by identifier after a removal.
abbrev closed_over : Dict ℕ FlowEntry → ℕ → FlowEntry → Dict ℕ FlowEntry
closed_over d i e =
    modify_at e.next (with_previous e.previous)
      (modify_at e.previous (with_next e.next) (erase d i))

get-closed_over :
    (d : Dict ℕ FlowEntry) (i : ℕ) (e : FlowEntry) (j : ℕ)
    → get (closed_over d i e) j ≡ (
        let old = get (erase d i) j in
        let back = if at_link e.previous j then map_some (with_next e.next) old else old in
        if at_link e.next j then map_some (with_previous e.previous) back else back)
get-closed_over d i e j = rw (get-modify_at e.next, get-modify_at e.previous) refl

closed_over-Unlinked :
    (d : Dict ℕ FlowEntry) (i : ℕ) (e : FlowEntry) → Unlinked d (closed_over d i e) i e
unfolding Unlinked
closed_over-Unlinked d i e j apart = ground (arith, get-closed_over d i e j, get-erase d i j)

closed_over-only :
    (d : Dict ℕ FlowEntry) (i : ℕ) (e : FlowEntry) (j : ℕ)
    → get (erase d i) j ≡ none
    → get (closed_over d i e) j ≡ none
closed_over-only d i e j h = ground (arith, get-closed_over d i e j)

remove-missing : (t : FlowTable) (i : ℕ) → get t.by_id i ≡ none → remove t i ≡ (false, t)
unfolding remove
remove-missing t i h = rw (remove, h) refl

abbrev removed : FlowTable → ℕ → FlowEntry → FlowTable
removed t i e = unlink e (record t { by_id = erase t.by_id i; by_flow = erase t.by_flow e.key })

remove-found :
    (t : FlowTable) (i : ℕ) (e : FlowEntry)
    → get t.by_id i ≡ some e
    → remove t i ≡ (true, removed t i e)
unfolding remove
remove-found t i e h = rw (remove, h) refl

removed-head :
    (t : FlowTable) (q : Queue) (i : ℕ) (e : FlowEntry)
    → Refines t q
    → has_id q i ≡ true
    → get t.by_id i ≡ some e
    → (removed t i e).sweep_head ≡ head_id (drop_id q i)
removed-head t q i e r has at =
    elim (Linked-entry t.by_id none q t.sweep_tail i e r.linked has at).0 [
      | inl (first, back) ↦
          rw back
            (sym (head_of-drop_id t.by_id none q t.sweep_tail i e r.linked r.distinct at first))
      | inr (p, back, _, not_first) ↦ rw back (r.head ∙ sym (head_kept-drop_id q i not_first))
    ]

removed-Refines :
    (t : FlowTable) (q : Queue) (i : ℕ) (e : FlowEntry)
    → Refines t q
    → has_id q i ≡ true
    → get t.by_id i ≡ some e
    → key_of q i ≡ some e.key
    → Refines (removed t i e) (drop_id q i)
removed-Refines t q i e r has at key = record {
  linked =
      Linked-drop_id t.by_id (closed_over t.by_id i e) none q t.sweep_tail i e r.linked r.distinct
        (λ p h. cc) has at (closed_over-Unlinked t.by_id i e);
  head = removed-head t q i e r has at;
  distinct = Distinct-drop_id q i r.distinct;
  dict =
      modify_at-IsDict e.next _ _ (modify_at-IsDict e.previous _ _ (erase-IsDict t.by_id i r.dict));
  size =
      let shorter = length-drop_id q i r.distinct has in
      let fewer = length-erase t.by_id i e r.dict at in
      rw (length-modify_at e.next, length-modify_at e.previous) (omega (arith, r.size));
  only = λ j out.
      closed_over-only t.by_id i e j
        (ground (arith, get-erase t.by_id i j, has_id-drop_id q i j, r.only j));
  flows = λ k.
      get-erase t.by_flow e.key k
      ∙ (rw (r.flows k) (sym (find_key-drop_id q i k e.key r.distinct key)));
}

-- Removing a session answers whether the queue had it, and takes its flow out of the queue, wherever
-- it stands.
pub remove-Refines :
    (t : FlowTable) (q : Queue) (i : ℕ)
    → Refines t q
    → ((remove t i).0 ≡ has_id q i) × Refines (remove t i).1 (drop_id q i)
remove-Refines t q i r = elim (Bool-cases (has_id q i)) [
  | inl has ↦
      let (e, at, key) = Refines-found t q i r has in
      rw (remove-found t i e at, has) (refl, removed-Refines t q i e r has at key)
  | inr missing ↦
      rw (remove-missing t i (r.only i missing), missing, drop_id_absent q i missing) (refl, r)
]
