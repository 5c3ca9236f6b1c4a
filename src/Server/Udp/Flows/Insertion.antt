-- ===== src/Server/Udp/Flows/Insertion.antt =====
-- `FlowTable::session_for` finds the session of a flow, or puts a new one behind the others.
use rustgo.Prelude.{
  ℕ, zero, suc, Bool, true, false, ◌||◌, Option, none, some, [], ◌∷◌, ◌++◌, length, length-append,
  leb, ◌==◌, if◌then◌else◌, Result, ok, err, Result-cases, ◌≡◌, ◌≢◌, inl, inr, refl, ◌∙◌, sym, ap,
  Bool-cases, Option-cases, arith,
}
use rustgo.Prelude.Dict.{
  Dict, get, insert, modify, map_some, nat_key, get-insert, get-modify, length-insert,
  length-modify, insert-IsDict, modify-IsDict,
}
use rustgo.Server.Udp.Flows.{
  FlowKey, flow_key, FlowEntry, FlowTable, FlowError, capacity_error, entropy_unavailable,
  max_session_id_attempts, is_some, allocate, allocate_session_id, touched, with_next, append_flow,
  append_behind, session_for, then_some,
}
use rustgo.Server.Udp.Flows.Queue.{
  Flow, Queue, head_id, last_id, has_id, find_key, touch, Distinct, entry_of, Linked, Refines,
}
use rustgo.Server.Udp.Flows.Links.{Linked-snoc, Linked-tail, has_id-apart}
use rustgo.Server.Udp.Flows.Contents.{
  snoc_out, find_key-has_id, find_key-snoc, Distinct-snoc, has_id-touch, find_key-touch,
  length-touch, Distinct-touch,
}
use rustgo.Server.Udp.Flows.Removal.{Refines-found}

-- The first draw that is neither 0 nor taken, if it is among the attempts and none before it fails.
unfoldable pub draw_id :
    (attempts : ℕ) → (draws : ℕ → Option ℕ) → (drawn : ℕ) → Queue → Result FlowError ℕ
draw_id zero draws drawn q = err entropy_unavailable
draw_id (suc attempts) draws drawn q =
    let rest = draw_id attempts draws (suc drawn) q in
    elim (draws drawn) [
      | none ↦ err entropy_unavailable
      | some i ↦ if i == 0 || has_id q i then rest else ok i
    ]

abbrev pub flow_of : ℕ → FlowKey → ℕ → Option ℕ → Flow
flow_of i key now observed_traffic = record {
  session_id = i;
  key = key;
  last_activity = now;
  observed_traffic = observed_traffic;
}

-- A session for a flow, in a queue that holds at most `capacity` flows, each with its counters if
-- the queue is observed.
unfoldable pub queue_session :
    (capacity : ℕ)
    → (observe_traffic : Bool) → Queue
    → (draws : ℕ → Option ℕ) → (traffic : ℕ) → FlowKey
    → (now : ℕ) → Result FlowError (ℕ × Bool) × Queue
unfolding draw_id
queue_session capacity observe_traffic q draws traffic key now = elim (find_key q key) [
  | some i ↦ (ok (i, false), touch q i now)
  | none ↦
      if leb capacity (length q)
      then (err capacity_error, q)
      else elim (draw_id max_session_id_attempts draws 0 q) [
        | err e ↦ (err e, q)
        | ok i ↦ (ok (i, true), q ++ flow_of i key now (then_some observe_traffic traffic) ∷ [])
      ]
]

pub contains-has_id :
    (t : FlowTable) (q : Queue) (i : ℕ) → Refines t q → is_some (get t.by_id i) ≡ has_id q i
contains-has_id t q i r = elim (Bool-cases (has_id q i)) [
  | inl has ↦ let (e, at, _) = Refines-found t q i r has in rw (at, has) refl
  | inr missing ↦ rw (r.only i missing, missing) refl
]

allocate-draw_id :
    (attempts : ℕ) (draws : ℕ → Option ℕ) (drawn : ℕ) (t : FlowTable) (q : Queue)
    → Refines t q
    → allocate attempts draws drawn t.by_id ≡ draw_id attempts draws drawn q
unfolding allocate draw_id
allocate-draw_id zero draws drawn t q r = refl
allocate-draw_id (suc attempts) draws drawn t q r = elim (Option-cases (draws drawn)) [
  | inl failed ↦ rw (allocate, draw_id, failed) refl
  | inr (i, drew) ↦
      rw
        (
          allocate,
          draw_id,
          drew,
          contains-has_id t q i r,
          allocate-draw_id attempts draws (suc drawn) t q r,
        )
        (ground arith)
]

draw_id-fresh :
    (attempts : ℕ) (draws : ℕ → Option ℕ) (drawn : ℕ) (q : Queue) (i : ℕ)
    → draw_id attempts draws drawn q ≡ ok i
    → (i ≢ 0) × (has_id q i ≡ false)
unfolding draw_id
draw_id-fresh zero draws drawn q i h = cc
draw_id-fresh (suc attempts) draws drawn q i h =
    ground (arith, draw_id-fresh attempts draws (suc drawn) q i)

head_id-touch : (q : Queue) (i now : ℕ) → head_id (touch q i now) ≡ head_id q
unfolding touch
head_id-touch [] i now = refl
head_id-touch (f ∷ q) i now = ground arith

Linked-touch :
    (d : Dict ℕ FlowEntry) (previous : Option ℕ) (q : Queue) (tail : Option ℕ) (i now : ℕ)
    → Linked d previous q tail
    → Linked (modify d i (touched now)) previous (touch q i now) tail
unfolding Linked touch
Linked-touch d previous [] tail i now l = l
Linked-touch d previous (f ∷ q) tail i now l = ground (
  arith,
  get-modify d i f.session_id (touched now),
  l.0,
  head_id-touch q i now,
  Linked-touch d (some f.session_id) q tail i now l.1,
)

pub touch-Refines :
    (t : FlowTable) (q : Queue) (i now : ℕ)
    → Refines t q
    → Refines (record t { by_id = modify t.by_id i (touched now) }) (touch q i now)
touch-Refines t q i now r = record {
  linked = Linked-touch t.by_id none q t.sweep_tail i now r.linked;
  head = r.head ∙ sym (head_id-touch q i now);
  distinct = Distinct-touch q i now r.distinct;
  dict = modify-IsDict t.by_id i (touched now) r.dict;
  size = length-modify t.by_id i (touched now) ∙ r.size ∙ sym (length-touch q i now);
  only = λ j out.
      ground (arith, get-modify t.by_id i j (touched now), r.only j, has_id-touch q i now j);
  flows = λ k. r.flows k ∙ sym (find_key-touch q i now k);
}

-- The map by identifier after an insertion behind the flow `last`.
abbrev behind : Dict ℕ FlowEntry → ℕ → Flow → Dict ℕ FlowEntry
behind d last g =
    modify (insert d g.session_id (entry_of g (some last) none)) last
      (with_next (some g.session_id))

get-behind :
    (d : Dict ℕ FlowEntry) (last : ℕ) (g : Flow) (j : ℕ)
    → get (behind d last g) j ≡ (
        let old = if g.session_id == j then some (entry_of g (some last) none) else get d j in
        if last == j then map_some (with_next (some g.session_id)) old else old)
get-behind d last g j =
    get-modify (insert d g.session_id (entry_of g (some last) none)) last j
      (with_next (some g.session_id))
    ∙ rw (get-insert d g.session_id j) refl

abbrev alone_of : FlowTable → Flow → FlowTable
alone_of t g = record t {
  by_flow = insert t.by_flow g.key g.session_id;
  by_id = insert t.by_id g.session_id (entry_of g none none);
  sweep_head = some g.session_id;
  sweep_tail = some g.session_id;
}

abbrev behind_of : FlowTable → ℕ → Flow → FlowTable
behind_of t last g = record t {
  by_flow = insert t.by_flow g.key g.session_id;
  by_id = behind t.by_id last g;
  sweep_tail = some g.session_id;
}

append_flow_alone :
    (t : FlowTable) (g : Flow)
    → t.sweep_tail ≡ none
    → append_flow t g.key g.last_activity g.observed_traffic g.session_id
      ≡ (ok (g.session_id, true), alone_of t g)
unfolding append_behind
append_flow_alone t g empty =
    ap (λ tail. append_behind tail t g.key g.last_activity g.observed_traffic g.session_id) empty

append_flow_behind :
    (t : FlowTable) (last : ℕ) (g : Flow)
    → t.sweep_tail ≡ some last
    → is_some (get (insert t.by_id g.session_id (entry_of g (some last) none)) last) ≡ true
    → append_flow t g.key g.last_activity g.observed_traffic g.session_id
      ≡ (ok (g.session_id, true), behind_of t last g)
unfolding append_behind
append_flow_behind t last g tail has =
    ap (λ link. append_behind link t g.key g.last_activity g.observed_traffic g.session_id) tail
    ∙ rw (append_behind, has) refl

Linked-empty : (t : FlowTable) → Refines t [] → t.sweep_tail ≡ none
unfolding Linked
Linked-empty t r = r.linked

alone_of-Refines : (t : FlowTable) (g : Flow) → Refines t [] → Refines (alone_of t g) (g ∷ [])
unfolding Linked Distinct has_id find_key
alone_of-Refines t g r = record {
  linked =
      (ground (arith, get-insert t.by_id g.session_id g.session_id (entry_of g none none)), refl);
  head = refl;
  distinct = (refl, refl, tt);
  dict = insert-IsDict t.by_id g.session_id _ r.dict;
  size = length-insert t.by_id g.session_id _ (r.only g.session_id refl) ∙ ap suc r.size;
  only =
      λ j out. ground (arith, get-insert t.by_id g.session_id j (entry_of g none none), r.only j);
  flows = λ k. get-insert t.by_flow g.key k g.session_id ∙ rw (r.flows k) refl;
}

behind_of-Refines :
    (t : FlowTable) (f : Flow) (q : Queue) (g : Flow)
    → Refines t (f ∷ q)
    → has_id (f ∷ q) g.session_id ≡ false
    → find_key (f ∷ q) g.key ≡ none
    → (last_id f q == g.session_id) ≡ false
    → Refines (behind_of t (last_id f q) g) (f ∷ q ++ g ∷ [])
behind_of-Refines t f q g r fresh new_key apart = record {
  linked =
      Linked-snoc t.by_id (behind t.by_id (last_id f q) g) none f q t.sweep_tail g r.linked
        r.distinct fresh (ground (arith, get-behind t.by_id (last_id f q) g g.session_id))
        (λ j inside.
          let other = has_id-apart (f ∷ q) j g.session_id inside fresh in
          ground (arith, get-behind t.by_id (last_id f q) g j));
  head = r.head;
  distinct = Distinct-snoc (f ∷ q) g r.distinct fresh new_key;
  dict = modify-IsDict _ (last_id f q) _ (insert-IsDict t.by_id g.session_id _ r.dict);
  size =
      length-modify _ (last_id f q) _
      ∙ length-insert t.by_id g.session_id _ (r.only g.session_id fresh)
      ∙ omega (arith, r.size, length-append (f ∷ q) (g ∷ []));
  only = λ j out.
      let (missing, other) = snoc_out (f ∷ q) g j out in
      ground (arith, get-behind t.by_id (last_id f q) g j, r.only j missing);
  flows = λ k.
      get-insert t.by_flow g.key k g.session_id
      ∙ rw (r.flows k) (sym (find_key-snoc (f ∷ q) g k new_key));
}

append_flow-Refines :
    (t : FlowTable) (q : Queue) (g : Flow)
    → Refines t q
    → has_id q g.session_id ≡ false
    → find_key q g.key ≡ none
    → ((append_flow t g.key g.last_activity g.observed_traffic g.session_id).0
        ≡ ok (g.session_id, true))
      × Refines
          (append_flow t g.key g.last_activity g.observed_traffic g.session_id).1
          (q ++ g ∷ [])
append_flow-Refines t [] g r fresh new_key =
    rw (append_flow_alone t g (Linked-empty t r)) (refl, alone_of-Refines t g r)
append_flow-Refines t (f ∷ q) g r fresh new_key =
    let last = last_id f q in
    let (tail, inside) = Linked-tail t.by_id none f q t.sweep_tail r.linked in
    let apart : (last == g.session_id) ≡ false =
      has_id-apart (f ∷ q) last g.session_id inside fresh in
    let (e, at, _) = Refines-found t (f ∷ q) last r inside in
    let found : is_some (get (insert t.by_id g.session_id (entry_of g (some last) none)) last)
        ≡ true =
      ground
        (arith, get-insert t.by_id g.session_id last (entry_of g (some last) none), at, apart) in
    rw (append_flow_behind t last g tail found)
      (refl, behind_of-Refines t f q g r fresh new_key apart)

-- A session for a flow is found or made in the table as in the queue: the answers are the same, and
-- the table goes on to stand for the queue. In particular no link of the table is ever broken.
pub session_for-Refines :
    (t : FlowTable) (q : Queue) (draws : ℕ → Option ℕ) (traffic : ℕ) (key : FlowKey) (now : ℕ)
    → Refines t q
    → ((session_for t draws traffic key now).0
        ≡ (queue_session t.capacity t.observe_traffic q draws traffic key now).0)
      × Refines
          (session_for t draws traffic key now).1
          (queue_session t.capacity t.observe_traffic q draws traffic key now).1
unfolding session_for queue_session allocate_session_id
session_for-Refines t q draws traffic key now r =
    let allocated : allocate_session_id t draws ≡ draw_id max_session_id_attempts draws 0 q =
      allocate-draw_id max_session_id_attempts draws 0 t q r in
    elim (Option-cases (find_key q key)) [
      | inr (i, known) ↦
          let has = contains-has_id t q i r ∙ find_key-has_id q key i known in
          rw (session_for, queue_session, r.flows key, known, has) (refl, touch-Refines t q i now r)
      | inl unknown ↦ elim (Bool-cases (leb t.capacity (length q))) [
        | inl full ↦ rw (session_for, queue_session, r.flows key, unknown, r.size, full) (refl, r)
        | inr room ↦ elim (Result-cases (draw_id max_session_id_attempts draws 0 q)) [
          | inl (i, drew) ↦
              let (_, fresh) = draw_id-fresh max_session_id_attempts draws 0 q i drew in
              rw (session_for, queue_session, r.flows key, unknown, r.size, room, allocated, drew)
                (append_flow-Refines t q (flow_of i key now (then_some t.observe_traffic traffic)) r
                  fresh unknown)
          | inr (e, failed) ↦
              rw (session_for, queue_session, r.flows key, unknown, r.size, room, allocated, failed)
                (refl, r)
        ]
      ]
    ]
