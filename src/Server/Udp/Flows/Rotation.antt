-- ===== src/Server/Udp/Flows/Rotation.antt =====
-- `FlowTable::rotate_sweep_head` moves the first flow behind the others; `validate_reply` looks a flow up.
use rustgo.Prelude.{
  ℕ, Bool, true, false, ◌&&◌, Option, none, some, [], ◌∷◌, ◌++◌, length-append, ◌==◌, if◌then◌else◌,
  ok, ◌≡◌, inl, inr, refl, ◌∙◌, sym, Bool-cases, arith,
}
use rustgo.Prelude.Dict.{
  Dict, get, modify, map_some, nat_key, get-modify, length-modify, modify-IsDict,
}
use rustgo.Server.Udp.Address.{SocketAddr, same_address}
use rustgo.Server.Udp.Flows.{
  flow_key, FlowEntry, FlowTable, with_next, with_previous, same_link, next_of, rotate_sweep_head,
  validate_reply,
}
use rustgo.Server.Udp.Flows.Queue.{
  Flow, Queue, last_id, has_id, find_key, touch, Distinct, entry_of, Linked, Refines,
}
use rustgo.Server.Udp.Flows.Links.{
  Linked-frame, Linked-snoc, Linked-tail, has_id-apart, has_id-first, has_id-cons,
}
use rustgo.Server.Udp.Flows.Contents.{snoc_out, find_key-snoc, Distinct-snoc, key_of}
use rustgo.Server.Udp.Flows.Removal.{Refines-found}
use rustgo.Server.Udp.Flows.Insertion.{touch-Refines}

abbrev last_place : ℕ → FlowEntry → FlowEntry
last_place tail entry = record entry { previous = some tail; next = none }

-- The map by identifier once the head `i`, which `next` follows, stands behind `tail`.
abbrev turned : Dict ℕ FlowEntry → (i next tail : ℕ) → Dict ℕ FlowEntry
turned d i next tail =
    modify (modify (modify d next (with_previous none)) tail (with_next (some i))) i
      (last_place tail)

abbrev turned_table : FlowTable → (i next tail : ℕ) → FlowTable
turned_table t i next tail = record t {
  by_id = turned t.by_id i next tail;
  sweep_head = some next;
  sweep_tail = some i;
}

rotate-alone :
    (t : FlowTable) (i : ℕ)
    → t.sweep_head ≡ some i
    → t.sweep_tail ≡ some i
    → rotate_sweep_head t i ≡ (ok tt, t)
unfolding rotate_sweep_head
rotate-alone t i head tail =
    let first : same_link t.sweep_head i ≡ true = rw head (ground arith) in
    let last : same_link t.sweep_tail i ≡ true = rw tail (ground arith) in
    rw (rotate_sweep_head, first, last) refl

modify-found :
    (d : Dict ℕ FlowEntry) (i j : ℕ) (f : FlowEntry → FlowEntry) (e : FlowEntry)
    → get d j ≡ some e
    → (k : FlowEntry) × (get (modify d i f) j ≡ some k)
modify-found d i j f e at = elim (Bool-cases (i == j)) [
  | inl here ↦ (f e, get-modify d i j f ∙ rw (here, at) refl)
  | inr there ↦ (e, get-modify d i j f ∙ rw (there, at) refl)
]

rotate-turned :
    (t : FlowTable) (i next tail : ℕ)
    → t.sweep_head ≡ some i
    → t.sweep_tail ≡ some tail
    → (tail == i) ≡ false
    → (e : FlowEntry) → get t.by_id i ≡ some e
    → e.next ≡ some next
    → (f : FlowEntry) → get t.by_id next ≡ some f
    → (g : FlowEntry) → get t.by_id tail ≡ some g
    → rotate_sweep_head t i ≡ (ok tt, turned_table t i next tail)
unfolding rotate_sweep_head
rotate-turned t i next tail head tail_is apart e at follows f at_next g at_tail =
    let first : same_link t.sweep_head i ≡ true = rw head (ground arith) in
    let last : same_link t.sweep_tail i ≡ false = rw tail_is apart in
    let next_is : next_of (get t.by_id i) ≡ some next = rw at follows in
    let one = modify t.by_id next (with_previous none) in
    let two = modify one tail (with_next (some i)) in
    let (g1, has_tail) = modify-found t.by_id next tail (with_previous none) g at_tail in
    let (e1, has_one) = modify-found t.by_id next i (with_previous none) e at in
    let (e2, has_i) = modify-found one tail i (with_next (some i)) e1 has_one in
    rw (rotate_sweep_head, first, last, next_is, tail_is, at_next, has_tail, has_i) refl

get-turned :
    (d : Dict ℕ FlowEntry) (i next tail j : ℕ)
    → get (turned d i next tail) j ≡ (
        let one = if next == j then map_some (with_previous none) (get d j) else get d j in
        let two = if tail == j then map_some (with_next (some i)) one else one in
        if i == j then map_some (last_place tail) two else two)
get-turned d i next tail j =
    let one = modify d next (with_previous none) in
    get-modify (modify one tail (with_next (some i))) i j (last_place tail)
    ∙ rw (get-modify one tail j (with_next (some i)), get-modify d next j (with_previous none)) refl

-- The second flow's link back is cut.
cut :
    (d : Dict ℕ FlowEntry) (previous : Option ℕ) (h : Flow) (q : Queue) (tail : Option ℕ)
    → Linked d previous (h ∷ q) tail
    → has_id q h.session_id ≡ false
    → Linked (modify d h.session_id (with_previous none)) none (h ∷ q) tail
unfolding Linked
cut d previous h q tail l apart = (
  ground (arith, get-modify d h.session_id h.session_id (with_previous none), l.0),
  Linked-frame d (modify d h.session_id (with_previous none)) (some h.session_id) q tail
      (λ j has.
        let other = has_id-apart q j h.session_id has apart in
        ground (arith, get-modify d h.session_id j (with_previous none)))
      l.1,
)

turned-Linked :
    (d : Dict ℕ FlowEntry) (f h : Flow) (q : Queue) (tail : Option ℕ)
    → Linked d none (f ∷ h ∷ q) tail
    → Distinct (f ∷ h ∷ q)
    → Linked
        (turned d f.session_id h.session_id (last_id h q))
        none
        (h ∷ q ++ f ∷ [])
        (some f.session_id)
unfolding Linked Distinct
turned-Linked d f h q tail l distinct =
    let one = modify d h.session_id (with_previous none) in
    let last = last_id h q in
    let i = f.session_id in
    let inside = (Linked-tail d (some i) h q tail l.1).1 in
    let next_apart : (h.session_id == i) ≡ false =
      has_id-apart (h ∷ q) h.session_id i (has_id-first h q) distinct.0 in
    let last_apart : (last == i) ≡ false = has_id-apart (h ∷ q) last i inside distinct.0 in
    Linked-snoc one (turned d i h.session_id last) none h q tail f
      (cut d (some i) h q tail l.1 distinct.2.0) distinct.2 distinct.0
      (ground (arith, get-turned d i h.session_id last i, l.0))
      (λ j has.
        let other = has_id-apart (h ∷ q) j i has distinct.0 in
        ground (
          arith,
          get-turned d i h.session_id last j,
          get-modify d h.session_id j (with_previous none),
        ))

turned_table-Refines :
    (t : FlowTable) (f h : Flow) (q : Queue)
    → Refines t (f ∷ h ∷ q)
    → Refines (turned_table t f.session_id h.session_id (last_id h q)) (h ∷ q ++ f ∷ [])
unfolding Distinct find_key has_id
turned_table-Refines t f h q r =
    let i = f.session_id in
    let last = last_id h q in
    let n = h.session_id in
    record {
      linked = turned-Linked t.by_id f h q t.sweep_tail r.linked r.distinct;
      head = refl;
      distinct = Distinct-snoc (h ∷ q) f r.distinct.2 r.distinct.0 r.distinct.1;
      dict = modify-IsDict _ i _ (modify-IsDict _ last _ (modify-IsDict t.by_id n _ r.dict));
      size =
          length-modify _ i _
          ∙ length-modify _ last _
          ∙ length-modify t.by_id n _
          ∙ omega (arith, r.size, length-append (h ∷ q) (f ∷ []));
      only = λ j out.
          let (missing, other) = snoc_out (h ∷ q) f j out in
          ground (arith, get-turned t.by_id i n last j, r.only j);
      flows = λ k. r.flows k ∙ sym (find_key-snoc (h ∷ q) f k r.distinct.1);
    }

last_inside :
    (t : FlowTable) (f h : Flow) (q : Queue)
    → Refines t (f ∷ h ∷ q)
    → has_id (h ∷ q) (last_id h q) ≡ true
unfolding Linked
last_inside t f h q r = (Linked-tail t.by_id (some f.session_id) h q t.sweep_tail r.linked.1).1

first_apart :
    (t : FlowTable) (f h : Flow) (q : Queue)
    → Refines t (f ∷ h ∷ q)
    → (last_id h q == f.session_id) ≡ false
unfolding Distinct
first_apart t f h q r =
    has_id-apart (h ∷ q) (last_id h q) f.session_id (last_inside t f h q r) r.distinct.0

first_entry :
    (t : FlowTable) (f h : Flow) (q : Queue)
    → Refines t (f ∷ h ∷ q)
    → get t.by_id f.session_id ≡ some (entry_of f none (some h.session_id))
unfolding Linked
first_entry t f h q r = r.linked.0

pub rotate-first :
    (t : FlowTable) (f : Flow) → Refines t (f ∷ []) → rotate_sweep_head t f.session_id ≡ (ok tt, t)
rotate-first t f r =
    rotate-alone t f.session_id r.head (Linked-tail t.by_id none f [] t.sweep_tail r.linked).0

pub rotate-next :
    (t : FlowTable) (f h : Flow) (q : Queue)
    → Refines t (f ∷ h ∷ q)
    → rotate_sweep_head t f.session_id
      ≡ (ok tt, turned_table t f.session_id h.session_id (last_id h q))
rotate-next t f h q r =
    let whole = f ∷ h ∷ q in
    let (tail, _) = Linked-tail t.by_id none f (h ∷ q) t.sweep_tail r.linked in
    let last_in = has_id-cons f (h ∷ q) (last_id h q) (last_inside t f h q r) in
    let next_in = has_id-cons f (h ∷ q) h.session_id (has_id-first h q) in
    let (g, at_last, _) = Refines-found t whole (last_id h q) r last_in in
    let (k, at_next, _) = Refines-found t whole h.session_id r next_in in
    rotate-turned t f.session_id h.session_id (last_id h q) r.head tail (first_apart t f h q r)
      (entry_of f none (some h.session_id)) (first_entry t f h q r) refl k at_next g at_last

-- The rotation moves the first flow of the queue behind the others, and it succeeds.
pub rotate_sweep_head-Refines :
    (t : FlowTable) (f : Flow) (q : Queue)
    → Refines t (f ∷ q)
    → ((rotate_sweep_head t f.session_id).0 ≡ ok tt)
      × Refines (rotate_sweep_head t f.session_id).1 (q ++ f ∷ [])
rotate_sweep_head-Refines t f [] r = rw (rotate-first t f r) (refl, r)
rotate_sweep_head-Refines t f (h ∷ q) r =
    rw (rotate-next t f h q r) (refl, turned_table-Refines t f h q r)

key_of_absent : (q : Queue) (i : ℕ) → has_id q i ≡ false → key_of q i ≡ none
unfolding has_id key_of
key_of_absent [] i h = refl
key_of_absent (f ∷ q) i h = ground (arith, key_of_absent q i)

-- Whether a reply comes from the destination of the session `i` and goes to its source.
unfoldable pub answers_to : Queue → ℕ → (recipient destination : SocketAddr) → Bool
unfolding key_of same_address
answers_to q i recipient destination = elim (key_of q i) [
  | none ↦ false
  | some key ↦ same_address key.source recipient && same_address key.destination destination
]

-- A reply is taken exactly if its session is in the queue, with the reply's two addresses. Then the
-- session's flow is touched, and else nothing changes.
pub validate_reply-Refines :
    (t : FlowTable) (q : Queue) (i : ℕ) (recipient destination : SocketAddr) (now : ℕ)
    → Refines t q
    → ((validate_reply t i recipient destination now).0 ≡ answers_to q i recipient destination)
      × Refines
          (validate_reply t i recipient destination now).1
          (if answers_to q i recipient destination then touch q i now else q)
unfolding validate_reply answers_to
validate_reply-Refines t q i recipient destination now r = elim (Bool-cases (has_id q i)) [
  | inl has ↦
      let (e, at, key) = Refines-found t q i r has in
      elim (Bool-cases (same_address e.key.source recipient)) [
        | inl from ↦ elim (Bool-cases (same_address e.key.destination destination)) [
          | inl to ↦
              rw (validate_reply, answers_to, at, key, from, to) (refl, touch-Refines t q i now r)
          | inr other ↦ rw (validate_reply, answers_to, at, key, from, other) (refl, r)
        ]
        | inr other ↦ rw (validate_reply, answers_to, at, key, other) (refl, r)
      ]
  | inr missing ↦
      rw (validate_reply, answers_to, r.only i missing, key_of_absent q i missing) (refl, r)
]
