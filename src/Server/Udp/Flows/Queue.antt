-- ===== src/Server/Udp/Flows/Queue.antt =====
-- What `FlowTable` promises: a queue of flows. Its operations by clauses, and what it means that a table
-- stands for a queue.
use rustgo.Prelude.{
  ℕ, Bool, false, ◌||◌, Option, none, some, List, [], ◌∷◌, length, ◌==◌, if◌then◌else◌, ◌≡◌,
}
use rustgo.Prelude.Dict.{Dict, get, IsDict, nat_key}
use rustgo.Server.Udp.Flows.{FlowKey, same_flow, flow_key, FlowEntry, FlowTable}

pub record Flow : Type 0 where
  pub session_id : ℕ
  pub key : FlowKey
  pub last_activity : ℕ
  pub observed_traffic : Option ℕ

abbrev pub Queue : Type 0
Queue = List Flow

abbrev pub head_id : Queue → Option ℕ
head_id [] = none
head_id (f ∷ q) = some f.session_id

abbrev pub last_id : Flow → Queue → ℕ
last_id f [] = f.session_id
last_id f (g ∷ q) = last_id g q

unfoldable pub has_id : Queue → ℕ → Bool
has_id [] i = false
has_id (f ∷ q) i = let rest = has_id q i in f.session_id == i || rest

unfoldable pub find_key : Queue → FlowKey → Option ℕ
find_key [] k = none
find_key (f ∷ q) k =
    let rest = find_key q k in if same_flow f.key k then some f.session_id else rest

unfoldable pub touch : Queue → ℕ → ℕ → Queue
touch [] i now = []
touch (f ∷ q) i now =
    let rest = touch q i now in
    (if f.session_id == i then record f { last_activity = now } else f) ∷ rest

unfoldable pub drop_id : Queue → ℕ → Queue
drop_id [] i = []
drop_id (f ∷ q) i = let rest = drop_id q i in if f.session_id == i then rest else f ∷ rest

-- No identifier and no flow stands twice in the queue.
unfoldable pub Distinct : Queue → Type 0
Distinct [] = Unit
Distinct (f ∷ q) = (has_id q f.session_id ≡ false) × (find_key q f.key ≡ none) × Distinct q

abbrev pub entry_of : Flow → (previous next : Option ℕ) → FlowEntry
entry_of f previous next = record {
  key = f.key;
  last_activity = f.last_activity;
  previous = previous;
  next = next;
  observed_traffic = f.observed_traffic;
}

-- The entries of the queue's flows are linked both ways, in the order of the queue.
unfoldable pub Linked : Dict ℕ FlowEntry → Option ℕ → Queue → Option ℕ → Type 0
Linked by_id previous [] tail = tail ≡ previous
Linked by_id previous (f ∷ q) tail =
    (get by_id f.session_id ≡ some (entry_of f previous (head_id q)))
    × Linked by_id (some f.session_id) q tail

-- A table stands for a queue.
pub record Refines (t : FlowTable) (q : Queue) : Type 0 where
  pub linked : Linked t.by_id none q t.sweep_tail
  pub head : t.sweep_head ≡ head_id q
  pub distinct : Distinct q
  pub dict : IsDict t.by_id
  pub size : length t.by_id ≡ length q
  pub only : (i : ℕ) → has_id q i ≡ false → get t.by_id i ≡ none
  pub flows : (k : FlowKey) → get t.by_flow k ≡ find_key q k
