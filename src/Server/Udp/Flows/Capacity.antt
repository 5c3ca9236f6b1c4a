-- ===== src/Server/Udp/Flows/Capacity.antt =====
-- No call of a `FlowTable` changes its capacity, or whether it is observed.
use rustgo.Prelude.{
  ℕ, Bool, true, false, Option, none, some, List, [], ◌∷◌, ◌++◌, length, length-take, take, drop,
  take-append-drop, sym, subst, if◌then◌else◌, Result-cases, ◌≡◌, inl, inr, refl, ◌∙◌, Bool-cases,
  Option-cases,
}
use rustgo.Prelude.Dict.{get, nat_key}
use rustgo.Server.Udp.Address.{SocketAddr}
use rustgo.Server.Udp.Flows.{
  FlowKey, flow_key, FlowTable, ExpiredFlow, allocate_session_id, append_behind, session_for,
  remove, validate_reply, rotate_sweep_head, sweep, sweep_expired,
}
use rustgo.Server.Udp.Flows.Queue.{Flow, Queue, Refines}
use rustgo.Server.Udp.Flows.Rotation.{rotate-first, rotate-next}
use rustgo.Server.Udp.Flows.Sweep.{
  idle, expired_of, remove-first, rotate-later, sweep-idle, sweep-busy,
}

abbrev pub settings : FlowTable → ℕ × Bool
settings t = (t.capacity, t.observe_traffic)

if-settings :
    {A : Type 0} (b : Bool) (x y : A × FlowTable) (n : ℕ × Bool)
    → settings x.1 ≡ n
    → settings y.1 ≡ n
    → settings (if b then x else y).1 ≡ n
if-settings true x y n p q = p
if-settings false x y n p q = q

append_behind-settings :
    (tail : Option ℕ) (t : FlowTable) (key : FlowKey) (now : ℕ) (traffic : Option ℕ) (i : ℕ)
    → settings (append_behind tail t key now traffic i).1 ≡ settings t
unfolding append_behind
append_behind-settings none t key now traffic i = refl
append_behind-settings (some last) t key now traffic i = if-settings _ _ _ (settings t) refl refl

pub session_for-settings :
    (t : FlowTable) (draws : ℕ → Option ℕ) (traffic : ℕ) (key : FlowKey) (now : ℕ)
    → settings (session_for t draws traffic key now).1 ≡ settings t
unfolding session_for
session_for-settings t draws traffic key now = elim (Option-cases (get t.by_flow key)) [
  | inr (i, known) ↦ rw (session_for, known) (if-settings _ _ _ (settings t) refl refl)
  | inl unknown ↦ elim (Result-cases (allocate_session_id t draws)) [
    | inl (i, drew) ↦
        rw (session_for, unknown, drew)
          (if-settings _ _ _ (settings t) refl (append_behind-settings t.sweep_tail t key now _ i))
    | inr (e, failed) ↦ rw (session_for, unknown, failed) (if-settings _ _ _ (settings t) refl refl)
  ]
]

pub remove-settings : (t : FlowTable) (i : ℕ) → settings (remove t i).1 ≡ settings t
unfolding remove
remove-settings t i = elim (Option-cases (get t.by_id i)) [
  | inl missing ↦ rw (remove, missing) refl
  | inr (e, at) ↦ rw (remove, at) refl
]

pub validate_reply-settings :
    (t : FlowTable) (i : ℕ) (recipient destination : SocketAddr) (now : ℕ)
    → settings (validate_reply t i recipient destination now).1 ≡ settings t
unfolding validate_reply
validate_reply-settings t i recipient destination now = elim (Option-cases (get t.by_id i)) [
  | inl missing ↦ rw (validate_reply, missing) refl
  | inr (e, at) ↦ rw (validate_reply, at) (if-settings _ _ _ (settings t) refl refl)
]

rotate_sweep_head-settings :
    (t : FlowTable) (f : Flow) (q : Queue)
    → Refines t (f ∷ q)
    → settings (rotate_sweep_head t f.session_id).1 ≡ settings t
rotate_sweep_head-settings t f [] r = rw (rotate-first t f r) refl
rotate_sweep_head-settings t f (h ∷ q) r = rw (rotate-next t f h q r) refl

sweep-settings :
    (visited later : Queue) (t : FlowTable) (now idle_timeout : ℕ) (expired : List ExpiredFlow)
    → Refines t (visited ++ later)
    → settings (sweep (length visited) t now idle_timeout expired).1 ≡ settings t
unfolding sweep
sweep-settings [] later t now idle_timeout expired r = refl
sweep-settings (f ∷ visited) later t now idle_timeout expired r =
    let i = f.session_id in
    elim (Bool-cases (idle now idle_timeout f)) [
      | inl old ↦
          let (_, left) = remove-first t f (visited ++ later) r in
          rw (sweep-idle (length visited) t f (visited ++ later) now idle_timeout expired r old) (
            sweep-settings visited later (remove t i).1 now idle_timeout
              (expired ++ expired_of f ∷ []) left
            ∙ remove-settings t i)
      | inr fresh ↦
          let left = rotate-later t f visited later r in
          rw (sweep-busy (length visited) t f (visited ++ later) now idle_timeout expired r fresh) (
            sweep-settings visited (later ++ f ∷ []) (rotate_sweep_head t i).1 now idle_timeout
              expired left
            ∙ rotate_sweep_head-settings t f (visited ++ later) r)
    ]

pub sweep_expired-settings :
    (t : FlowTable) (q : Queue) (now idle_timeout maximum : ℕ)
    → Refines t q
    → settings (sweep_expired t now idle_timeout maximum).1 ≡ settings t
unfolding sweep_expired
sweep_expired-settings t q now idle_timeout maximum r =
    rw (sweep_expired, r.size, ← length-take maximum q)
      (sweep-settings (take maximum q) (drop maximum q) t now idle_timeout []
        (subst (λ p. Refines t p) (sym (take-append-drop maximum q)) r))
