-- ===== src/Server/Udp/Flows.antt =====
-- crates/rustgos/src/udp.rs: `FlowTable`, the sessions of a UDP tunnel. They stand in a map by
-- identifier and a map by flow, and are linked into the queue in which they are swept. Identifiers are
-- drawn from the system's random numbers, a parameter: draw `i` gives a number or fails. A time is its
-- nanoseconds, whose difference saturates at 0. An `Arc<ObservedUdpTraffic>` is the number of its
-- allocation, which is a parameter of the call that allocates it. The counters behind it are atomics and
-- no part of the table; `take_observed_traffic`, which empties them and leaves the table as it is, is not
-- modelled.
pub mod Queue
pub mod Links
pub mod Contents
pub mod Removal
pub mod Insertion
pub mod Rotation
pub mod Sweep
pub mod Queries
pub mod Capacity
pub mod Trace
pub mod Turnover
mod Tests
use rustgo.Prelude.{
  ℕ, zero, suc, ◌+◌, ◌-◌, Bool, true, false, not, ◌&&◌, ◌||◌, Option, none, some, List, [], ◌∷◌,
  ◌++◌, length, min, ltb, leb, ◌==◌, ==_iff, if◌then◌else◌, Result, ok, err, ◌≡◌, ◌↔◌, refl, arith,
}
use rustgo.Prelude.Dict.{Key, Dict, get, insert, erase, modify, nat_key}
use rustgo.Server.Udp.Address.{SocketAddr, same_address, same_address_iff}

pub record FlowKey : Type 0 where
  pub source : SocketAddr
  pub destination : SocketAddr

unfoldable pub same_flow : FlowKey → FlowKey → Bool
unfolding same_address
same_flow j k = same_address j.source k.source && same_address j.destination k.destination

pub same_flow_iff : (j k : FlowKey) → (same_flow j k ≡ true) ↔ (j ≡ k)
unfolding same_flow
same_flow_iff j k =
    ground (arith, same_address_iff j.source k.source, same_address_iff j.destination k.destination)

instance abbrev pub flow_key : Key FlowKey
flow_key = record { same = same_flow; same_iff = same_flow_iff }

pub record FlowEntry : Type 0 where
  pub key : FlowKey
  pub last_activity : ℕ
  pub previous : Option ℕ
  pub next : Option ℕ
  pub observed_traffic : Option ℕ

pub record FlowTable : Type 0 where
  pub capacity : ℕ
  pub observe_traffic : Bool
  pub by_flow : Dict FlowKey ℕ
  pub by_id : Dict ℕ FlowEntry
  pub sweep_head : Option ℕ
  pub sweep_tail : Option ℕ

pub record ExpiredFlow : Type 0 where
  pub session_id : ℕ
  pub observed_traffic : Option ℕ

pub data FlowError : Type 0 where
  capacity_error : FlowError
  entropy_unavailable : FlowError
  inconsistent : FlowError

abbrev pub max_session_id_attempts : ℕ
max_session_id_attempts = 16

unfoldable pub new_table : ℕ → Bool → FlowTable
new_table capacity observe_traffic = record {
  capacity = capacity;
  observe_traffic = observe_traffic;
  by_flow = [];
  by_id = [];
  sweep_head = none;
  sweep_tail = none;
}

-- `self.by_id.contains_key(&id)`
abbrev pub is_some : {A : Type 0} → Option A → Bool
is_some none = false
is_some (some a) = true

-- The loop of `allocate_session_id`, with the number of its attempts.
unfoldable pub allocate :
    (attempts : ℕ) → (draws : ℕ → Option ℕ) → (drawn : ℕ) → Dict ℕ FlowEntry → Result FlowError ℕ
allocate zero draws drawn by_id = err entropy_unavailable
allocate (suc attempts) draws drawn by_id =
    let rest = allocate attempts draws (suc drawn) by_id in
    elim (draws drawn) [
      | none ↦ err entropy_unavailable
      | some session_id ↦
          if not (session_id == 0) && not (is_some (get by_id session_id))
          then ok session_id
          else rest
    ]

unfoldable pub allocate_session_id : FlowTable → (ℕ → Option ℕ) → Result FlowError ℕ
unfolding allocate
allocate_session_id self draws = allocate max_session_id_attempts draws 0 self.by_id

abbrev pub touched : ℕ → FlowEntry → FlowEntry
touched now entry = record entry { last_activity = now }

abbrev pub with_next : Option ℕ → FlowEntry → FlowEntry
with_next next entry = record entry { next = next }

abbrev pub with_previous : Option ℕ → FlowEntry → FlowEntry
with_previous previous entry = record entry { previous = previous }

-- `if let Some(id) = link { by_id.get_mut(&id).next = … }`
abbrev pub modify_at : Option ℕ → (FlowEntry → FlowEntry) → Dict ℕ FlowEntry → Dict ℕ FlowEntry
modify_at none f by_id = by_id
modify_at (some id) f by_id = modify by_id id f

-- `observe_traffic.then(|| …)`
abbrev pub then_some : Bool → ℕ → Option ℕ
then_some false n = none
then_some true n = some n

-- The insertion of a new flow behind the tail.
unfoldable pub append_behind :
    (tail : Option ℕ)
    → FlowTable
    → FlowKey
    → (now : ℕ) → (observed_traffic : Option ℕ) → (session_id : ℕ)
    → Result FlowError (ℕ × Bool) × FlowTable
append_behind tail self key now observed_traffic session_id =
    let entry : FlowEntry = record {
      key = key;
      last_activity = now;
      previous = tail;
      next = none;
      observed_traffic = observed_traffic;
    } in
    let inserted = record self {
      by_flow = insert self.by_flow key session_id;
      by_id = insert self.by_id session_id entry;
    } in
    elim tail [
      | none ↦ (
        ok (session_id, true),
        record inserted { sweep_head = some session_id; sweep_tail = some session_id },
      )
      | some previous ↦
          if not (is_some (get inserted.by_id previous)) then (err inconsistent, inserted) else (
            ok (session_id, true),
            record inserted {
              by_id = modify inserted.by_id previous (with_next (some session_id));
              sweep_tail = some session_id;
            },
          )
    ]

abbrev pub append_flow :
    FlowTable
    → FlowKey
    → (now : ℕ) → (observed_traffic : Option ℕ) → (session_id : ℕ)
    → Result FlowError (ℕ × Bool) × FlowTable
append_flow self key now observed_traffic session_id =
    append_behind self.sweep_tail self key now observed_traffic session_id

-- A new entry of an observed table counts its traffic in the allocation `traffic`.

unfoldable pub session_for :
    FlowTable
    → (draws : ℕ → Option ℕ) → (traffic : ℕ) → FlowKey
    → (now : ℕ) → Result FlowError (ℕ × Bool) × FlowTable
unfolding allocate_session_id append_behind
session_for self draws traffic key now = elim (get self.by_flow key) [
  | some session_id ↦
      if is_some (get self.by_id session_id)
      then (
        ok (session_id, false),
        record self { by_id = modify self.by_id session_id (touched now) },
      )
      else (err inconsistent, self)
  | none ↦
      if leb self.capacity (length self.by_id)
      then (err capacity_error, self)
      else elim (allocate_session_id self draws) [
        | err e ↦ (err e, self)
        | ok session_id ↦
            append_flow self key now (then_some self.observe_traffic traffic) session_id
      ]
]

-- The links of a removed entry are closed over it.
abbrev pub unlink : FlowEntry → FlowTable → FlowTable
unlink entry self =
    let by_id =
      modify_at entry.next (with_previous entry.previous)
        (modify_at entry.previous (with_next entry.next) self.by_id) in
    record self {
      by_id = by_id;
      sweep_head = elim entry.previous [ none ↦ entry.next | some _ ↦ self.sweep_head ];
      sweep_tail = elim entry.next [ none ↦ entry.previous | some _ ↦ self.sweep_tail ];
    }

unfoldable pub remove : FlowTable → ℕ → Bool × FlowTable
remove self session_id = elim (get self.by_id session_id) [
  | none ↦ (false, self)
  | some entry ↦ (
    true,
    unlink entry (record self {
      by_id = erase self.by_id session_id;
      by_flow = erase self.by_flow entry.key;
    }),
  )
]

-- `.ok_or(FlowError::Inconsistent)?`, with the table as it is at this point.
abbrev pub or_inconsistent :
    {A : Type 0}
    → Option A
    → FlowTable
    → (A → Result FlowError (Unit {0}) × FlowTable)
    → Result FlowError (Unit {0}) × FlowTable
or_inconsistent none self next = (err inconsistent, self)
or_inconsistent (some a) self next = next a

abbrev pub same_link : Option ℕ → ℕ → Bool
same_link none id = false
same_link (some i) id = i == id

abbrev pub next_of : Option FlowEntry → Option ℕ
next_of none = none
next_of (some entry) = entry.next

unfoldable pub rotate_sweep_head : FlowTable → ℕ → Result FlowError (Unit {0}) × FlowTable
rotate_sweep_head self session_id =
    if not (same_link self.sweep_head session_id)
    then (err inconsistent, self)
    else if same_link self.sweep_tail session_id
    then (ok tt, self)
    else or_inconsistent (next_of (get self.by_id session_id)) self (λ next.
      or_inconsistent self.sweep_tail self (λ tail. or_inconsistent (get self.by_id next) self (λ _.
        let first = record self { by_id = modify self.by_id next (with_previous none) } in
        or_inconsistent (get first.by_id tail) first (λ _.
          let second = record self {
            by_id = modify first.by_id tail (with_next (some session_id));
          } in
          or_inconsistent (get second.by_id session_id) second (λ _. (
            ok tt,
            record self {
              by_id =
                  modify second.by_id session_id
                    (λ entry. record entry { previous = some tail; next = none });
              sweep_head = some next;
              sweep_tail = some session_id;
            },
          ))))))

unfoldable pub validate_reply :
    FlowTable → ℕ → (recipient destination : SocketAddr) → ℕ → Bool × FlowTable
unfolding same_address
validate_reply self session_id recipient destination now = elim (get self.by_id session_id) [
  | none ↦ (false, self)
  | some entry ↦
      if not (same_address entry.key.source recipient)
        || not (same_address entry.key.destination destination)
      then (false, self)
      else (true, record self { by_id = modify self.by_id session_id (touched now) })
]

abbrev pub is_expired : Option FlowEntry → (now idle_timeout : ℕ) → Bool
is_expired none now idle_timeout = false
is_expired (some entry) now idle_timeout = leb idle_timeout (now - entry.last_activity)

abbrev pub traffic_of : Option FlowEntry → Option ℕ
traffic_of none = none
traffic_of (some entry) = entry.observed_traffic

unfoldable pub observed_traffic : FlowTable → ℕ → Option ℕ
observed_traffic self session_id = traffic_of (get self.by_id session_id)

abbrev pub expired_flow : ℕ → Option ℕ → ExpiredFlow
expired_flow session_id traffic = record { session_id = session_id; observed_traffic = traffic }

-- The loop of `sweep_expired`, with the number of its turns.
unfoldable pub sweep :
    (turns : ℕ)
    → FlowTable
    → (now idle_timeout : ℕ) → List ExpiredFlow
    → Result FlowError (List ExpiredFlow) × FlowTable
unfolding observed_traffic remove rotate_sweep_head
sweep zero self now idle_timeout expired = (ok expired, self)
sweep (suc turns) self now idle_timeout expired = elim self.sweep_head [
  | none ↦ (ok expired, self)
  | some session_id ↦
      if is_expired (get self.by_id session_id) now idle_timeout
      then (let traffic = observed_traffic self session_id in
          let (removed, rest) = remove self session_id in
          sweep turns rest now idle_timeout
            (if removed then expired ++ expired_flow session_id traffic ∷ [] else expired))
      else (elim (rotate_sweep_head self session_id).0 [
        | err e ↦ (err e, (rotate_sweep_head self session_id).1)
        | ok _ ↦ sweep turns (rotate_sweep_head self session_id).1 now idle_timeout expired
      ])
]

unfoldable pub sweep_expired :
    FlowTable → (now idle_timeout maximum : ℕ) → Result FlowError (List ExpiredFlow) × FlowTable
unfolding sweep
sweep_expired self now idle_timeout maximum =
    sweep (min maximum (length self.by_id)) self now idle_timeout []

abbrev pub len : FlowTable → ℕ
len self = length self.by_id

unfoldable pub clear : FlowTable → FlowTable
clear self = record self { by_flow = []; by_id = []; sweep_head = none; sweep_tail = none }

-- The keys of a map, in the order of its entries, which the program does not fix.
unfoldable pub keys : Dict ℕ FlowEntry → List ℕ
keys [] = []
keys ((id, entry) ∷ by_id) = id ∷ keys by_id

unfoldable pub session_ids : FlowTable → List ℕ
unfolding keys
session_ids self = keys self.by_id
