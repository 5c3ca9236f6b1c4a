-- ===== src/Server/Udp/Flows/Sweep.antt =====
-- `FlowTable::sweep_expired` visits the first flows of the queue.
use mathlib.Core.List.{append-nil, append_assoc}
use rustgo.Prelude.{
  ℕ, suc, ◌-◌, Bool, true, false, none, some, List, [], ◌∷◌, ◌++◌, length, length-take, leb,
  if◌then◌else◌, take, drop, take-append-drop, Result, ok, err, ◌≡◌, inl, inr, refl, ◌∙◌, sym, ap,
  subst, Bool-cases, arith,
}
use rustgo.Prelude.Dict.{get, nat_key}
use rustgo.Server.Udp.Flows.{
  FlowTable, FlowError, ExpiredFlow, expired_flow, observed_traffic, remove, rotate_sweep_head,
  is_expired, sweep, sweep_expired,
}
use rustgo.Server.Udp.Flows.Queue.{Flow, Queue, drop_id, Distinct, Linked, Refines}
use rustgo.Server.Udp.Flows.Links.{has_id-first}
use rustgo.Server.Udp.Flows.Contents.{drop_id_absent}
use rustgo.Server.Udp.Flows.Removal.{remove-Refines}
use rustgo.Server.Udp.Flows.Rotation.{rotate_sweep_head-Refines}

abbrev pub idle : (now idle_timeout : ℕ) → Flow → Bool
idle now idle_timeout f = leb idle_timeout (now - f.last_activity)

abbrev pub expired_of : Flow → ExpiredFlow
expired_of f = expired_flow f.session_id f.observed_traffic

unfoldable pub idle_flows : (now idle_timeout : ℕ) → Queue → List ExpiredFlow
idle_flows now idle_timeout [] = []
idle_flows now idle_timeout (f ∷ q) =
    let rest = idle_flows now idle_timeout q in
    if idle now idle_timeout f then expired_of f ∷ rest else rest

unfoldable pub busy : (now idle_timeout : ℕ) → Queue → Queue
busy now idle_timeout [] = []
busy now idle_timeout (f ∷ q) =
    let rest = busy now idle_timeout q in if idle now idle_timeout f then rest else f ∷ rest

pub remove-first :
    (t : FlowTable) (f : Flow) (q : Queue)
    → Refines t (f ∷ q)
    → ((remove t f.session_id).0 ≡ true) × Refines (remove t f.session_id).1 q
unfolding Distinct drop_id
remove-first t f q r =
    let i = f.session_id in
    let (had, left) = remove-Refines t (f ∷ q) i r in
    let dropped : drop_id (f ∷ q) i ≡ q = ground (arith, drop_id_absent q i r.distinct.0) in
    (had ∙ has_id-first f q, subst (λ p. Refines (remove t i).1 p) dropped left)

first-idle :
    (t : FlowTable) (f : Flow) (q : Queue) (now idle_timeout : ℕ)
    → Refines t (f ∷ q)
    → is_expired (get t.by_id f.session_id) now idle_timeout ≡ idle now idle_timeout f
unfolding Linked
first-idle t f q now idle_timeout r = rw r.linked.0 refl

pub first-traffic :
    (t : FlowTable) (f : Flow) (q : Queue)
    → Refines t (f ∷ q)
    → observed_traffic t f.session_id ≡ f.observed_traffic
unfolding observed_traffic Linked
first-traffic t f q r = rw r.linked.0 refl

-- A turn of the loop at the flow `i`.
abbrev visit :
    (turns : ℕ)
    → FlowTable
    → (now idle_timeout : ℕ) → List ExpiredFlow
    → (i : ℕ) → Result FlowError (List ExpiredFlow) × FlowTable
visit turns t now idle_timeout expired i =
    if is_expired (get t.by_id i) now idle_timeout
    then sweep turns (remove t i).1 now idle_timeout
        (if (remove t i).0 then expired ++ expired_flow i (observed_traffic t i) ∷ [] else expired)
    else elim (rotate_sweep_head t i).0 [
      | err e ↦ (err e, (rotate_sweep_head t i).1)
      | ok _ ↦ sweep turns (rotate_sweep_head t i).1 now idle_timeout expired
    ]

sweep-visit :
    (turns : ℕ) (t : FlowTable) (i now idle_timeout : ℕ) (expired : List ExpiredFlow)
    → t.sweep_head ≡ some i
    → sweep (suc turns) t now idle_timeout expired ≡ visit turns t now idle_timeout expired i
unfolding sweep
sweep-visit turns t i now idle_timeout expired head =
    ap
      (λ link. elim link [
        | none ↦ (ok expired, t)
        | some j ↦ visit turns t now idle_timeout expired j
      ])
      head

pub sweep-idle :
    (turns : ℕ) (t : FlowTable) (f : Flow) (q : Queue) (now idle_timeout : ℕ)
    (expired : List ExpiredFlow)
    → Refines t (f ∷ q)
    → idle now idle_timeout f ≡ true
    → sweep (suc turns) t now idle_timeout expired
      ≡ sweep turns (remove t f.session_id).1 now idle_timeout (expired ++ expired_of f ∷ [])
sweep-idle turns t f q now idle_timeout expired r old =
    let (had, _) = remove-first t f q r in
    sweep-visit turns t f.session_id now idle_timeout expired r.head
    ∙ rw (first-idle t f q now idle_timeout r, first-traffic t f q r, old, had) refl

pub sweep-busy :
    (turns : ℕ) (t : FlowTable) (f : Flow) (q : Queue) (now idle_timeout : ℕ)
    (expired : List ExpiredFlow)
    → Refines t (f ∷ q)
    → idle now idle_timeout f ≡ false
    → sweep (suc turns) t now idle_timeout expired
      ≡ sweep turns (rotate_sweep_head t f.session_id).1 now idle_timeout expired
sweep-busy turns t f q now idle_timeout expired r fresh =
    let (fine, _) = rotate_sweep_head-Refines t f q r in
    sweep-visit turns t f.session_id now idle_timeout expired r.head
    ∙ rw (first-idle t f q now idle_timeout r, fresh, fine) refl

pub rotate-later :
    (t : FlowTable) (f : Flow) (visited later : Queue)
    → Refines t (f ∷ visited ++ later)
    → Refines (rotate_sweep_head t f.session_id).1 (visited ++ (later ++ f ∷ []))
rotate-later t f visited later r =
    subst (λ p. Refines (rotate_sweep_head t f.session_id).1 p)
      (append_assoc visited later (f ∷ [])) (rotate_sweep_head-Refines t f (visited ++ later) r).1

-- The answer of a sweep, and the queue it leaves.
Swept :
    (answer : Result FlowError (List ExpiredFlow) × FlowTable) → List ExpiredFlow → Queue → Type 0
Swept answer flows q = (answer.0 ≡ ok flows) × Refines answer.1 q

sweep-Refines :
    (visited later : Queue) (t : FlowTable) (now idle_timeout : ℕ) (expired : List ExpiredFlow)
    → Refines t (visited ++ later)
    → Swept
        (sweep (length visited) t now idle_timeout expired)
        (expired ++ idle_flows now idle_timeout visited)
        (later ++ busy now idle_timeout visited)
unfolding sweep Swept idle_flows busy
sweep-Refines [] later t now idle_timeout expired r =
    rw (append-nil expired, append-nil later) (refl, r)
sweep-Refines (f ∷ visited) later t now idle_timeout expired r =
    elim (Bool-cases (idle now idle_timeout f)) [
      | inl old ↦
          let (_, left) = remove-first t f (visited ++ later) r in
          let rest =
            sweep-Refines visited later (remove t f.session_id).1 now idle_timeout
              (expired ++ expired_of f ∷ []) left in
          rw
            (sweep-idle (length visited) t f (visited ++ later) now idle_timeout expired r old, old)
            (rw (← append_assoc expired (expired_of f ∷ []) (idle_flows now idle_timeout visited))
              rest)
      | inr fresh ↦
          let behind = rotate-later t f visited later r in
          let rest =
            sweep-Refines visited (later ++ f ∷ []) (rotate_sweep_head t f.session_id).1 now
              idle_timeout expired behind in
          rw
            (
              sweep-busy (length visited) t f (visited ++ later) now idle_timeout expired r fresh,
              fresh,
            )
            (rw (← append_assoc later (f ∷ []) (busy now idle_timeout visited)) rest)
    ]

-- A sweep of at most `maximum` flows does not fail. It visits the first flows of the queue, that many
-- or all of them, once each: it removes exactly those that were idle for the timeout, reports them in
-- their order, each with its traffic counters, and moves the others behind the flows it did not visit.
pub sweep_expired-Refines :
    (t : FlowTable) (q : Queue) (now idle_timeout maximum : ℕ)
    → Refines t q
    → ((sweep_expired t now idle_timeout maximum).0
        ≡ ok (idle_flows now idle_timeout (take maximum q)))
      × Refines
          (sweep_expired t now idle_timeout maximum).1
          (drop maximum q ++ busy now idle_timeout (take maximum q))
unfolding sweep_expired Swept
sweep_expired-Refines t q now idle_timeout maximum r =
    rw (sweep_expired, r.size, ← length-take maximum q)
      (sweep-Refines (take maximum q) (drop maximum q) t now idle_timeout []
        (subst (λ p. Refines t p) (sym (take-append-drop maximum q)) r))
