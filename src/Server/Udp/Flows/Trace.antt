-- ===== src/Server/Udp/Flows/Trace.antt =====
-- The calls that a UDP tunnel makes of its `FlowTable`, one after another; the calls of `FlowTable::new`
-- and `take_observed_traffic` are not among them.
use rustgo.Prelude.{
  ℕ, ◌≤◌, Bool, Option, List, [], ◌∷◌, ◌++◌, length, length-append, length-take, length-drop, leb,
  if◌then◌else◌, take, drop, Result, ok, Result-cases, ◌≡◌, inl, inr, refl, ap, ◌∙◌, Bool-cases,
  Option-cases, arith,
}
use rustgo.Server.Udp.Address.{SocketAddr}
use rustgo.Server.Udp.Flows.{
  FlowKey, FlowTable, ExpiredFlow, FlowError, max_session_id_attempts, then_some, new_table,
  session_for, remove, validate_reply, observed_traffic, sweep_expired, len, clear, session_ids,
}
use rustgo.Server.Udp.Flows.Queue.{Queue, has_id, find_key, touch, drop_id, Refines}
use rustgo.Server.Udp.Flows.Contents.{length-touch}
use rustgo.Server.Udp.Flows.Removal.{remove-Refines}
use rustgo.Server.Udp.Flows.Insertion.{queue_session, draw_id, flow_of, session_for-Refines}
use rustgo.Server.Udp.Flows.Rotation.{answers_to, validate_reply-Refines}
use rustgo.Server.Udp.Flows.Capacity.{
  settings, session_for-settings, remove-settings, validate_reply-settings, sweep_expired-settings,
}
use rustgo.Server.Udp.Flows.Sweep.{idle_flows, busy, sweep_expired-Refines}
use rustgo.Server.Udp.Flows.Queries.{
  occurrences, ids, traffic_at, observed_traffic-Refines, session_ids-Refines, new_table-Refines,
  clear-Refines,
}

pub data Call : Type 0 where
  open_session : (draws : ℕ → Option ℕ) → (traffic : ℕ) → FlowKey → (now : ℕ) → Call
  take_reply : (session_id : ℕ) → (recipient destination : SocketAddr) → (now : ℕ) → Call
  retire : (session_id : ℕ) → Call
  expire : (now idle_timeout maximum : ℕ) → Call
  look_up_traffic : (session_id : ℕ) → Call
  count : Call
  list_sessions : Call
  clear_all : Call

-- A list of sessions has no fixed order: an answer is how often each identifier stands in it.
pub data Answer : Type 0 where
  session : Result FlowError (ℕ × Bool) → Answer
  reply_taken : Bool → Answer
  retired : Bool → Answer
  expired : Result FlowError (List ExpiredFlow) → Answer
  traffic : Option ℕ → Answer
  counted : ℕ → Answer
  listed : (ℕ → ℕ) → Answer
  cleared : Answer

-- A call of the table.
unfoldable pub call : FlowTable → Call → Answer × FlowTable
unfolding session_for validate_reply remove sweep_expired observed_traffic session_ids clear
call t (open_session draws counters key now) =
    (session (session_for t draws counters key now).0, (session_for t draws counters key now).1)
call t (take_reply i recipient destination now) = (
  reply_taken (validate_reply t i recipient destination now).0,
  (validate_reply t i recipient destination now).1,
)
call t (retire i) = (retired (remove t i).0, (remove t i).1)
call t (expire now idle_timeout maximum) = (
  expired (sweep_expired t now idle_timeout maximum).0,
  (sweep_expired t now idle_timeout maximum).1,
)
call t (look_up_traffic i) = (traffic (observed_traffic t i), t)
call t count = (counted (len t), t)
call t list_sessions = (listed (occurrences (session_ids t)), t)
call t clear_all = (cleared, clear t)

-- The same call of a queue that holds at most `capacity` flows and is observed or not.
unfoldable pub queue_call :
    (capacity : ℕ) → (observe_traffic : Bool) → Queue → Call → Answer × Queue
unfolding queue_session answers_to touch has_id drop_id idle_flows busy traffic_at ids
queue_call capacity observed q (open_session draws counters key now) = (
  session (queue_session capacity observed q draws counters key now).0,
  (queue_session capacity observed q draws counters key now).1,
)
queue_call capacity observed q (take_reply i recipient destination now) = (
  reply_taken (answers_to q i recipient destination),
  if answers_to q i recipient destination then touch q i now else q,
)
queue_call capacity observed q (retire i) = (retired (has_id q i), drop_id q i)
queue_call capacity observed q (expire now idle_timeout maximum) = (
  expired (ok (idle_flows now idle_timeout (take maximum q))),
  drop maximum q ++ busy now idle_timeout (take maximum q),
)
queue_call capacity observed q (look_up_traffic i) = (traffic (traffic_at q i), q)
queue_call capacity observed q count = (counted (length q), q)
queue_call capacity observed q list_sessions = (listed (occurrences (ids q)), q)
queue_call capacity observed q clear_all = (cleared, [])

-- The answers to a list of calls.
unfoldable pub answers : FlowTable → List Call → List Answer
unfolding call
answers t [] = []
answers t (c ∷ cs) = (call t c).0 ∷ answers (call t c).1 cs

unfoldable pub queue_answers :
    (capacity : ℕ) → (observe_traffic : Bool) → Queue → List Call → List Answer
unfolding queue_call
queue_answers capacity observed q [] = []
queue_answers capacity observed q (c ∷ cs) =
    (queue_call capacity observed q c).0
    ∷ queue_answers capacity observed (queue_call capacity observed q c).1 cs

-- The table after a list of calls.
unfoldable pub run_calls : FlowTable → List Call → FlowTable
unfolding call
run_calls t [] = t
run_calls t (c ∷ cs) = run_calls (call t c).1 cs

pub call-Refines :
    (t : FlowTable) (q : Queue) (c : Call)
    → Refines t q
    → ((call t c).0 ≡ (queue_call t.capacity t.observe_traffic q c).0)
      × Refines (call t c).1 (queue_call t.capacity t.observe_traffic q c).1
      × (settings (call t c).1 ≡ settings t)
unfolding call queue_call clear
call-Refines t q (open_session draws counters key now) r =
    let (same, rest) = session_for-Refines t q draws counters key now r in
    (ap session same, rest, session_for-settings t draws counters key now)
call-Refines t q (take_reply i recipient destination now) r =
    let (same, rest) = validate_reply-Refines t q i recipient destination now r in
    (ap reply_taken same, rest, validate_reply-settings t i recipient destination now)
call-Refines t q (retire i) r =
    let (same, rest) = remove-Refines t q i r in (ap retired same, rest, remove-settings t i)
call-Refines t q (expire now idle_timeout maximum) r =
    let (same, rest) = sweep_expired-Refines t q now idle_timeout maximum r in
    (ap expired same, rest, sweep_expired-settings t q now idle_timeout maximum r)
call-Refines t q (look_up_traffic i) r = (ap traffic (observed_traffic-Refines t q i r), r, refl)
call-Refines t q count r = (ap counted r.size, r, refl)
call-Refines t q list_sessions r = (ap listed (session_ids-Refines t q r), r, refl)
call-Refines t q clear_all r = (refl, clear-Refines t, refl)

answers-Refines :
    (cs : List Call) (t : FlowTable) (q : Queue)
    → Refines t q
    → answers t cs ≡ queue_answers t.capacity t.observe_traffic q cs
unfolding answers queue_answers
answers-Refines [] t q r = refl
answers-Refines (c ∷ cs) t q r =
    let (same, rest, kept) = call-Refines t q c r in
    let after = (queue_call t.capacity t.observe_traffic q c).1 in
    let later = answers-Refines cs (call t c).1 after rest in
    let settled = ap (λ k. queue_answers k.0 k.1 after cs) kept in rw (same, later ∙ settled) refl

-- Whatever sessions are opened, answered for, retired, expired, counted, listed and cleared on a new
-- table, and whatever traffic counters are looked up, in whatever order, and whatever numbers are drawn:
-- the table answers as the queue of flows does. A list of sessions is compared without its order. In
-- particular no call ever finds the table inconsistent.
pub answers-queue_answers :
    (capacity : ℕ) (observe_traffic : Bool) (cs : List Call)
    → answers (new_table capacity observe_traffic) cs ≡ queue_answers capacity observe_traffic [] cs
unfolding new_table
answers-queue_answers capacity observe_traffic cs =
    answers-Refines cs (new_table capacity observe_traffic) []
      (new_table-Refines capacity observe_traffic)

length-drop_id_le : (q : Queue) (i : ℕ) → length (drop_id q i) ≤ length q
unfolding drop_id
length-drop_id_le [] i = omega arith
length-drop_id_le (f ∷ q) i = ground (arith, length-drop_id_le q i)

length-busy : (now idle_timeout : ℕ) (q : Queue) → length (busy now idle_timeout q) ≤ length q
unfolding busy
length-busy now idle_timeout [] = omega arith
length-busy now idle_timeout (f ∷ q) = ground (arith, length-busy now idle_timeout q)

length-queue_session :
    (capacity : ℕ) (observed : Bool) (q : Queue) (draws : ℕ → Option ℕ) (counters : ℕ)
    (key : FlowKey) (now : ℕ)
    → length q ≤ capacity
    → length (queue_session capacity observed q draws counters key now).1 ≤ capacity
unfolding queue_session
length-queue_session capacity observed q draws counters key now h =
    elim (Option-cases (find_key q key)) [
      | inr (i, known) ↦ rw (queue_session, known, length-touch q i now) h
      | inl unknown ↦ elim (Bool-cases (leb capacity (length q))) [
        | inl full ↦ rw (queue_session, unknown, full) h
        | inr room ↦ elim (Result-cases (draw_id max_session_id_attempts draws 0 q)) [
          | inl (i, drew) ↦
              rw
                (
                  queue_session,
                  unknown,
                  room,
                  drew,
                  length-append q (flow_of i key now (then_some observed counters) ∷ []),
                )
                (ground arith)
          | inr (e, failed) ↦ rw (queue_session, unknown, room, failed) h
        ]
      ]
    ]

length-queue_call :
    (capacity : ℕ) (observed : Bool) (q : Queue) (c : Call)
    → length q ≤ capacity
    → length (queue_call capacity observed q c).1 ≤ capacity
unfolding queue_call
length-queue_call capacity observed q (open_session draws counters key now) h =
    length-queue_session capacity observed q draws counters key now h
length-queue_call capacity observed q (take_reply i recipient destination now) h =
    ground (arith, length-touch q i now)
length-queue_call capacity observed q (retire i) h = omega (arith, length-drop_id_le q i)
length-queue_call capacity observed q (expire now idle_timeout maximum) h = omega (
  arith,
  length-append (drop maximum q) (busy now idle_timeout (take maximum q)),
  length-busy now idle_timeout (take maximum q),
  length-take maximum q,
  length-drop maximum q,
)
length-queue_call capacity observed q clear_all h = omega arith
length-queue_call capacity observed q _ h = h

run_calls-bound :
    (cs : List Call) (t : FlowTable) (q : Queue)
    → Refines t q
    → length q ≤ t.capacity
    → length (run_calls t cs).by_id ≤ t.capacity
unfolding run_calls
run_calls-bound [] t q r h = omega (arith, r.size)
run_calls-bound (c ∷ cs) t q r h =
    let (_, rest, kept) = call-Refines t q c r in
    let same : (call t c).1.capacity ≡ t.capacity = ap (λ k. k.0) kept in
    let shorter = length-queue_call t.capacity t.observe_traffic q c h in
    let later =
      run_calls-bound cs (call t c).1 (queue_call t.capacity t.observe_traffic q c).1 rest
        (omega (arith, same)) in
    omega (arith, same)

-- Whatever sessions are opened, answered for, retired, expired and cleared on a new table, in whatever
-- order, it never holds more sessions than its capacity.
pub run_calls-capacity :
    (capacity : ℕ) (observe_traffic : Bool) (cs : List Call)
    → length (run_calls (new_table capacity observe_traffic) cs).by_id ≤ capacity
unfolding new_table
run_calls-capacity capacity observe_traffic cs =
    run_calls-bound cs (new_table capacity observe_traffic) []
      (new_table-Refines capacity observe_traffic) (omega arith)
