-- ===== src/Path/State.antt =====
-- crates/rustgo-path/src/state.rs and the enums of crates/rustgo-path/src/lib.rs: the states of a
-- path manager, the transitions between them, its events and its errors.
use rustgo.Prelude.{arith, Bool, true, false, if◌then◌else◌, Result, ok, err, ◌≡◌, ◌↔◌}

pub data PathState : Type 0 where
  discovering checking direct relay rechecking closed : PathState

pub data PathKind : Type 0 where
  quic_v6 quic_v4 native_tcp relay_path : PathKind

unfoldable pub is_direct : PathKind → Bool
is_direct relay_path = false
is_direct _ = true

pub data PathEvent : Type 0 where
  state_changed : (from to : PathState) → PathEvent
  attempt_started : PathKind → PathEvent
  attempt_failed : PathKind → PathEvent
  selected_event : PathKind → PathEvent
  relay_fallback : PathEvent
  recheck_started : PathEvent
  recheck_scheduled : PathEvent
  promoted : PathKind → PathEvent
  closed_event : PathEvent

pub data PathError : Type 0 where
  illegal_transition : (from to : PathState) → PathError
  invalid_configuration : PathError
  attempt_failed_error : PathKind → PathError
  attempt_timed_out : PathKind → PathError
  attempt_task_failed : PathError
  no_viable_path : PathError
  cancelled_error : PathError

pub record PathStateMachine : Type 0 where
  pub current : PathState

unfoldable pub new_machine : PathStateMachine
new_machine = record { current = discovering }

-- The `matches!` of `PathStateMachine::transition`.
unfoldable pub legal : PathState → PathState → Bool
legal discovering checking = true
legal discovering closed = true
legal checking direct = true
legal checking relay = true
legal checking closed = true
legal direct rechecking = true
legal direct closed = true
legal relay rechecking = true
legal relay closed = true
legal rechecking direct = true
legal rechecking relay = true
legal rechecking closed = true
legal _ _ = false

unfoldable pub transition :
    PathStateMachine → PathState → Result PathError (Unit {0}) × PathStateMachine
unfolding legal
transition self next =
    if legal self.current next
    then (ok tt, record { current = next })
    else (err (illegal_transition self.current next), self)

-- The derived equality of `PathState`.
unfoldable pub same_state : PathState → PathState → Bool
same_state discovering discovering = true
same_state checking checking = true
same_state direct direct = true
same_state relay relay = true
same_state rechecking rechecking = true
same_state closed closed = true
same_state _ _ = false

pub same_state_iff : (s t : PathState) → (same_state s t ≡ true) ↔ (s ≡ t)
unfolding same_state
same_state_iff discovering t = ground arith
same_state_iff checking t = ground arith
same_state_iff direct t = ground arith
same_state_iff relay t = ground arith
same_state_iff rechecking t = ground arith
same_state_iff closed t = ground arith
