-- ===== src/Server/Udp/Flows/Contents.antt =====
-- What the operations on queues do to their identifiers, their flows and their lengths.
use rustgo.Prelude.{
  ℕ, suc, true, false, ◌||◌, Option, none, some, [], ◌∷◌, ◌++◌, length, ◌==◌, if◌then◌else◌, ◌≡◌,
  ◌≢◌, inl, inr, refl, ap, Bool-cases, arith,
}
use rustgo.Server.Udp.Flows.{FlowKey, same_flow, same_flow_iff}
use rustgo.Server.Udp.Flows.Queue.{Flow, Queue, has_id, find_key, touch, drop_id, Distinct}

pub has_id-append : (q r : Queue) (i : ℕ) → has_id (q ++ r) i ≡ (has_id q i || has_id r i)
unfolding has_id
has_id-append [] r i = refl
has_id-append (f ∷ q) r i = ground (arith, has_id-append q r i)

pub snoc_out :
    (q : Queue) (f : Flow) (i : ℕ)
    → has_id (q ++ f ∷ []) i ≡ false
    → (has_id q i ≡ false) × ((f.session_id == i) ≡ false)
unfolding has_id
snoc_out [] f i h = ground arith
snoc_out (g ∷ q) f i h = ground (arith, snoc_out q f i)

pub find_key-has_id : (q : Queue) (k : FlowKey) (i : ℕ) → find_key q k ≡ some i → has_id q i ≡ true
unfolding has_id find_key
find_key-has_id [] k i h = cc
find_key-has_id (f ∷ q) k i h = ground (arith, find_key-has_id q k i)

pub find_key-snoc :
    (q : Queue) (f : Flow) (k : FlowKey)
    → find_key q f.key ≡ none
    → find_key (q ++ f ∷ []) k ≡ (if same_flow f.key k then some f.session_id else find_key q k)
unfolding find_key
find_key-snoc [] f k fresh = refl
find_key-snoc (g ∷ q) f k fresh = ground (
  arith,
  find_key-snoc q f k,
  same_flow_iff g.key f.key,
  same_flow_iff g.key k,
  same_flow_iff f.key k,
)

pub Distinct-snoc :
    (q : Queue) (f : Flow)
    → Distinct q
    → has_id q f.session_id ≡ false
    → find_key q f.key ≡ none
    → Distinct (q ++ f ∷ [])
unfolding Distinct has_id find_key
Distinct-snoc [] f d fresh new_key = (refl, refl, tt)
Distinct-snoc (g ∷ q) f d fresh new_key =
    let rest = Distinct-snoc q f d.2 (ground arith) (ground arith) in
    (
      ground (arith, has_id-append q (f ∷ []) g.session_id, d.0),
      ground (
        arith,
        find_key-snoc q f g.key,
        d.1,
        same_flow_iff f.key g.key,
        same_flow_iff g.key f.key,
      ),
      rest,
    )

pub drop_id_absent : (q : Queue) (i : ℕ) → has_id q i ≡ false → drop_id q i ≡ q
unfolding has_id drop_id
drop_id_absent [] i h = refl
drop_id_absent (f ∷ q) i h = ground (arith, drop_id_absent q i)

pub has_id-drop_id :
    (q : Queue) (i j : ℕ) → has_id (drop_id q i) j ≡ (if i == j then false else has_id q j)
unfolding has_id drop_id
has_id-drop_id [] i j = ground arith
has_id-drop_id (f ∷ q) i j = ground (arith, has_id-drop_id q i j)

pub length-drop_id :
    (q : Queue) (i : ℕ) → Distinct q → has_id q i ≡ true → length q ≡ suc (length (drop_id q i))
unfolding has_id drop_id Distinct
length-drop_id [] i d has = ground arith
length-drop_id (f ∷ q) i d has = elim (Bool-cases (f.session_id == i)) [
  | inl here ↦ rw (here, drop_id_absent q i (ground arith)) refl
  | inr there ↦ rw there (ap suc (length-drop_id q i d.2 (ground arith)))
]

-- The flow of an identifier.
unfoldable pub key_of : Queue → ℕ → Option FlowKey
key_of [] i = none
key_of (f ∷ q) i = let rest = key_of q i in if f.session_id == i then some f.key else rest

key_of-found : (q : Queue) (i : ℕ) (key : FlowKey) → key_of q i ≡ some key → find_key q key ≢ none
unfolding find_key key_of
key_of-found [] i key at = ground arith
key_of-found (f ∷ q) i key at = ground (arith, key_of-found q i key, same_flow_iff f.key key)

unknown-drop_id :
    (q : Queue) (i : ℕ) (k : FlowKey) → find_key q k ≡ none → find_key (drop_id q i) k ≡ none
unfolding find_key drop_id
unknown-drop_id [] i k h = refl
unknown-drop_id (f ∷ q) i k h = ground (arith, unknown-drop_id q i k)

pub find_key-drop_id :
    (q : Queue) (i : ℕ) (k : FlowKey) (key : FlowKey)
    → Distinct q
    → key_of q i ≡ some key
    → find_key (drop_id q i) k ≡ (if same_flow key k then none else find_key q k)
unfolding find_key drop_id Distinct key_of
find_key-drop_id [] i k key d at = ground arith
find_key-drop_id (f ∷ q) i k key d at = elim (Bool-cases (f.session_id == i)) [
  | inl here ↦
      rw (here, drop_id_absent q i (ground arith)) (ground (arith, same_flow_iff f.key k, d.1))
  | inr there ↦
      let at_q : key_of q i ≡ some key = ground arith in
      let rest = find_key-drop_id q i k key d.2 at_q in
      let apart : f.key ≢ key = λ same. key_of-found q i key at_q (rw (← same) d.1) in
      rw (there, rest) (ground (arith, same_flow_iff f.key k, same_flow_iff key k, apart))
]

pub Distinct-drop_id : (q : Queue) (i : ℕ) → Distinct q → Distinct (drop_id q i)
unfolding Distinct drop_id
Distinct-drop_id [] i d = tt
Distinct-drop_id (f ∷ q) i d =
    ground
      (arith, has_id-drop_id q i f.session_id, unknown-drop_id q i f.key, Distinct-drop_id q i d.2)

pub has_id-touch : (q : Queue) (i now j : ℕ) → has_id (touch q i now) j ≡ has_id q j
unfolding has_id touch
has_id-touch [] i now j = refl
has_id-touch (f ∷ q) i now j = ground (arith, has_id-touch q i now j)

pub find_key-touch :
    (q : Queue) (i now : ℕ) (k : FlowKey) → find_key (touch q i now) k ≡ find_key q k
unfolding find_key touch
find_key-touch [] i now k = refl
find_key-touch (f ∷ q) i now k = ground (arith, find_key-touch q i now k)

pub length-touch : (q : Queue) (i now : ℕ) → length (touch q i now) ≡ length q
unfolding touch
length-touch [] i now = refl
length-touch (f ∷ q) i now = ap suc (length-touch q i now)

pub Distinct-touch : (q : Queue) (i now : ℕ) → Distinct q → Distinct (touch q i now)
unfolding Distinct touch
Distinct-touch [] i now d = tt
Distinct-touch (f ∷ q) i now d = ground (
  arith,
  has_id-touch q i now f.session_id,
  find_key-touch q i now f.key,
  Distinct-touch q i now d.2,
)
