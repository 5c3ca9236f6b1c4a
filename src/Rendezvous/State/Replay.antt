-- ===== src/Rendezvous/State/Replay.antt =====
-- What a sequence of operations can do to a rendezvous session: its identity is fixed, its phase
-- and its generation move one way, and no step is accepted twice.
use rustgo.Prelude.{
  ℕ, ◌≤◌, ◌<◌, ◌≡◌, ◌≢◌, ◌⊎◌, ◌↔◌, inl, inr, refl, ◌∙◌, Bool, List, [], ◌∷◌, ok, err, arith,
}
use rustgo.Prelude.Bytes.{Bytes, eq_bytes_iff}
use rustgo.Rendezvous.State.{
  RendezvousPhase, new, requested, accepted, closed, RendezvousState, StateError, Outcome,
  advance_step, request, provider_decision, advance_generation, accept_metadata,
}

-- The operations that change a session.
pub data Op : Type 0 where
  request_op : (step generation : ℕ) → Op
  decision_op : (step generation : ℕ) → Bool → Op
  step_op : ℕ → Op
  generation_op : ℕ → Op
  metadata_op : Bytes → (step generation expires now : ℕ) → Op

unfoldable pub apply : RendezvousState → Op → Outcome
unfolding request provider_decision advance_step advance_generation accept_metadata
apply s (request_op step generation) = request s step generation
apply s (decision_op step generation decision) = provider_decision s step generation decision
apply s (step_op step) = advance_step s step
apply s (generation_op generation) = advance_generation s generation
apply s (metadata_op session step generation expires now) =
    accept_metadata s session step generation expires now

-- The session after the operations, whether they passed or not.
unfoldable pub run : RendezvousState → List Op → RendezvousState
run s [] = s
run s (op ∷ ops) = run (apply s op).1 ops

-- The step that an operation carries, if it carries one.
abbrev pub Carries : Op → ℕ → Type 0
Carries (request_op step _) n = step ≡ n
Carries (decision_op step _ _) n = step ≡ n
Carries (step_op step) n = step ≡ n
Carries (generation_op _) n = ⊥
Carries (metadata_op _ step _ _ _) n = step ≡ n

abbrev pub rank : RendezvousPhase → ℕ
rank new = 0
rank requested = 1
rank accepted = 2
rank closed = 2

-- What operations leave of a session.
pub record Onward (s t : RendezvousState) : Type 0 where
  pub same_session : t.session_id ≡ s.session_id
  pub step_onward : s.last_step ≤ t.last_step
  pub phase_onward : rank s.phase ≤ rank t.phase
  pub decided : (rank s.phase < 2) ⊎ (t.phase ≡ s.phase)
  pub generation_onward : (s.phase ≡ new) ⊎ (s.generation ≤ t.generation)

apply-Onward : (s : RendezvousState) (op : Op) → Onward s (apply s op).1
unfolding apply
apply-Onward s (request_op a b) = ground arith
apply-Onward s _ = ground arith

-- An operation that fails changes nothing, whichever check refuses it.
apply_error :
    (s : RendezvousState) (op : Op) (e : StateError) → (apply s op).0 ≡ err e → (apply s op).1 ≡ s
unfolding apply
apply_error s (request_op a b) e h = ground arith
apply_error s _ e h = ground arith

-- An operation that carries a step and passes makes that step the last one, and it was a later one.
apply-step :
    (s : RendezvousState) (op : Op) (n : ℕ)
    → Carries op n
    → (apply s op).0 ≡ ok tt
    → (s.last_step < n) × ((apply s op).1.last_step ≡ n)
unfolding apply
apply-step s (request_op a b) n c h = ground arith
apply-step s (generation_op g) n c h = absurd c
apply-step s _ n c h = ground arith

back_to_new : (p : RendezvousPhase) {q : RendezvousPhase} → q ≡ new → rank p ≤ rank q → p ≡ new
back_to_new p is_new le = ground arith

Onward-trans : (s t u : RendezvousState) → Onward s t → Onward t u → Onward s u
Onward-trans s t u a b = record {
  same_session = b.same_session ∙ a.same_session;
  step_onward = omega (arith, a.step_onward, b.step_onward);
  phase_onward = omega (arith, a.phase_onward, b.phase_onward);
  decided = ground (arith, a, b);
  generation_onward = elim a.generation_onward [
    | inl is_new ↦ inl is_new
    | inr first ↦ elim b.generation_onward [
      | inl is_new ↦ inl (back_to_new s.phase is_new a.phase_onward)
      | inr second ↦ inr (omega arith)
    ]
  ];
}

-- Whatever operations are tried, passing or not, a session keeps its identity, its last step and
-- its phase never go back, a decision is final, and after the request its candidate generation
-- never goes back.
pub run-Onward : (s : RendezvousState) (ops : List Op) → Onward s (run s ops)
unfolding run
run-Onward s [] = record {
  same_session = refl;
  step_onward = omega arith;
  phase_onward = omega arith;
  decided = inr refl;
  generation_onward = inr (omega arith);
}
run-Onward s (op ∷ ops) =
    Onward-trans s (apply s op).1 (run (apply s op).1 ops) (apply-Onward s op)
      (run-Onward (apply s op).1 ops)

-- A step is accepted once: after an operation with a step has passed, and after any operations
-- that follow, no operation with that step or an earlier one passes.
pub no_replay :
    (s : RendezvousState) (op again : Op) (between : List Op) (n m : ℕ)
    → Carries op n
    → (apply s op).0 ≡ ok tt
    → Carries again m
    → m ≤ n
    → (apply (run (apply s op).1 between) again).0 ≢ ok tt
no_replay s op again between n m c passed c' le replayed = omega (
  arith,
  (apply-step s op n c passed).1,
  (run-Onward (apply s op).1 between).step_onward,
  (apply-step (run (apply s op).1 between) again m c' replayed).0,
)

-- Metadata is accepted, with whatever next session, exactly if it names the session and the
-- generation, has not expired and carries a later step; the next session is then the session with
-- this step as its last one.
pub accept_metadata_iff :
    (s t : RendezvousState) (session : Bytes) (step generation expires now : ℕ)
    → (accept_metadata s session step generation expires now ≡ (ok tt, t)) ↔ (
        (session ≡ s.session_id)
        × (now < expires)
        × (generation ≡ s.generation)
        × (s.last_step < step)
        × (t ≡ record s { last_step = step }))
unfolding accept_metadata
accept_metadata_iff s t session step generation expires now =
    ground (arith, eq_bytes_iff session s.session_id)
