-- ===== src/Path/Manager.antt =====
-- crates/rustgo-path/src/lib.rs and health.rs: the record that a path manager guards by a mutex.
-- Each operation here is what the code does under one lock, so an interleaving of the manager's
-- tasks is a list of them. The adapter's path handle is of any type `H`; a cancellation token is
-- the flag of whether it is cancelled, and a task's join handle the flag of whether it is finished.
pub mod Events
use rustgo.Prelude.{
  ℕ, ◌+◌, ◌-◌, ◌*◌, ◌%◌, ◌^◌, Bool, true, false, not, ◌&&◌, ◌||◌, Option, none, some, List, [], ◌∷◌,
  ◌++◌, length, ltb, leb, ◌==◌, if◌then◌else◌, Result, ok, err,
}
use rustgo.Path.State.{
  PathState, discovering, checking, direct, relay, rechecking, closed, PathKind, is_direct,
  PathEvent, state_changed, selected_event, relay_fallback, recheck_started, recheck_scheduled,
  promoted, closed_event, PathError, illegal_transition, cancelled_error, PathStateMachine,
  new_machine, transition, same_state, invalid_configuration,
}

abbrev pub max_recorded_events : ℕ
max_recorded_events = 256

pub record SelectedPath (H : Type 0) : Type 0 where
  pub kind : PathKind
  pub handle : H

pub record OwnedSelected (H : Type 0) : Type 0 where
  pub path : SelectedPath H
  pub cancelled : Bool

pub record OwnedRecheck : Type 0 where
  pub id : ℕ
  pub cancelled : Bool
  pub is_finished : Bool

pub record OwnedResources (H : Type 0) : Type 0 where
  pub selected : Option (OwnedSelected H)
  pub recheck : Option OwnedRecheck

pub record ManagerRecord (H : Type 0) : Type 0 where
  pub state : PathStateMachine
  pub selected : Option (OwnedSelected H)
  pub recheck : Option OwnedRecheck
  pub next_recheck_id : ℕ
  pub active_operations : ℕ
  pub events : List PathEvent

-- A `Duration` is its nanoseconds.
pub record PathManagerConfig : Type 0 where
  pub direct_timeout : ℕ
  pub relay_grace : ℕ
  pub attempt_timeout : ℕ
  pub recheck_interval : ℕ

unfoldable pub new_config :
    (direct_timeout relay_grace attempt_timeout recheck_interval : ℕ)
    → Result PathError PathManagerConfig
new_config direct_timeout relay_grace attempt_timeout recheck_interval =
    if (direct_timeout == 0)
      || (relay_grace == 0)
      || leb direct_timeout relay_grace
      || (attempt_timeout == 0)
      || (recheck_interval == 0)
    then err invalid_configuration
    else ok record {
      direct_timeout = direct_timeout;
      relay_grace = relay_grace;
      attempt_timeout = attempt_timeout;
      recheck_interval = recheck_interval;
    }

abbrev pub pop_front : {A : Type 0} → List A → List A
pop_front [] = []
pop_front (x ∷ xs) = xs

unfoldable pub new_record : {H : Type 0} → ManagerRecord H
unfolding new_machine
new_record = record {
  state = new_machine;
  selected = none;
  recheck = none;
  next_recheck_id = 1;
  active_operations = 0;
  events = [];
}

unfoldable pub cancel_selected : {H : Type 0} → OwnedSelected H → OwnedSelected H
cancel_selected self = record self { cancelled = true }

unfoldable pub cancel_recheck : OwnedRecheck → OwnedRecheck
cancel_recheck self = record self { cancelled = true }

abbrev pub map_option : {A B : Type 0} → (A → B) → Option A → Option B
map_option f none = none
map_option f (some a) = some (f a)

-- The owned resources, taken out of the record with their tokens cancelled.
abbrev pub cancelled_resources : {H : Type 0} → ManagerRecord H → OwnedResources H
cancelled_resources self = record {
  selected = map_option cancel_selected self.selected;
  recheck = map_option cancel_recheck self.recheck;
}

-- `push_back` on the deque of events, after the oldest one has left a full one.
unfoldable pub push_recorded : List PathEvent → PathEvent → List PathEvent
push_recorded events event =
    let kept = if length events == max_recorded_events then pop_front events else events in
    kept ++ event ∷ []

-- `record.recheck.as_ref().map(|recheck| recheck.id) == Some(id)`
abbrev pub recheck_is : Option OwnedRecheck → ℕ → Bool
recheck_is none id = false
recheck_is (some recheck) id = recheck.id == id

module _ {H : Type 0} where
  unfoldable pub push_event : ManagerRecord H → PathEvent → ManagerRecord H
  push_event self event = record self { events = push_recorded self.events event }

  unfoldable pub record_transition :
      ManagerRecord H → PathState → Result PathError (Unit {0}) × ManagerRecord H
  unfolding transition push_event
  record_transition self next = elim (transition self.state next).0 [
    | err e ↦ (err e, self)
    | ok _ ↦ (
      ok tt,
      push_event (record self { state = (transition self.state next).1 })
          (state_changed self.state.current next),
    )
  ]

  unfoldable pub record_event : ManagerRecord H → PathEvent → ManagerRecord H
  unfolding push_event same_state
  record_event self event =
      if not (same_state self.state.current closed) then push_event self event else self

  -- The `OperationGuard` of a success is counted by the caller.
  unfoldable pub begin : ManagerRecord H → PathState → Result PathError (Unit {0}) × ManagerRecord H
  unfolding record_transition
  begin self next = elim (record_transition self next).0 [
    | err e ↦ (err e, (record_transition self next).1)
    | ok _ ↦
        let moved = (record_transition self next).1 in
        (ok tt, record moved { active_operations = moved.active_operations + 1 })
  ]

  unfoldable pub begin_failure :
      ManagerRecord H → Result PathError (OwnedResources H) × ManagerRecord H
  unfolding record_transition
  begin_failure self = elim (record_transition self rechecking).0 [
    | err e ↦ (err e, (record_transition self rechecking).1)
    | ok _ ↦
        let moved = (record_transition self rechecking).1 in
        (
          ok (cancelled_resources moved),
          record moved {
            active_operations = moved.active_operations + 1;
            selected = none;
            recheck = none;
          },
        )
  ]

  -- `let resources = OwnedResources { selected: record.selected.take(), … }` after the tokens are cancelled.
  abbrev pub released : ManagerRecord H → Result PathError (OwnedResources H) × ManagerRecord H
  released self = (ok (cancelled_resources self), record self { selected = none; recheck = none })

  unfoldable pub close_atomic :
      ManagerRecord H → Result PathError (OwnedResources H) × ManagerRecord H
  unfolding record_transition push_event same_state
  close_atomic self =
      if not (same_state self.state.current closed)
      then (elim (record_transition self closed).0 [
        | err e ↦ (err e, (record_transition self closed).1)
        | ok _ ↦
            let moved = (record_transition self closed).1 in
            released (push_event moved closed_event)
      ])
      else released self

  unfoldable pub begin_background_recheck : ManagerRecord H → ℕ → Bool × ManagerRecord H
  unfolding record_transition push_event same_state
  begin_background_recheck self id =
      if not (recheck_is self.recheck id) || not (same_state self.state.current relay)
      then (false, self)
      else elim (record_transition self rechecking).0 [
        | err e ↦ (false, (record_transition self rechecking).1)
        | ok _ ↦
            let moved = (record_transition self rechecking).1 in
            (true, push_event moved recheck_started)
      ]

  unfoldable pub finish_failed_recheck : ManagerRecord H → ℕ → Bool × ManagerRecord H
  unfolding record_transition push_event same_state
  finish_failed_recheck self id =
      if not (recheck_is self.recheck id) || not (same_state self.state.current rechecking)
      then (false, self)
      else elim (record_transition self relay).0 [
        | err e ↦ (false, (record_transition self relay).1)
        | ok _ ↦
            let moved = (record_transition self relay).1 in
            (true, push_event moved recheck_scheduled)
      ]

  -- `OperationGuard::finish`; `saturating_sub` is the subtraction of ℕ.
  unfoldable pub finish : ManagerRecord H → PathState → Bool × ManagerRecord H
  unfolding same_state
  finish self expected = (
    same_state self.state.current expected,
    record self { active_operations = self.active_operations - 1 },
  )

  -- `OperationGuard::drop`
  unfoldable pub drop_guard : ManagerRecord H → ManagerRecord H
  drop_guard self = record self { active_operations = self.active_operations - 1 }

  -- The test of `wait_for_operations`.
  unfoldable pub no_operations : ManagerRecord H → Bool
  no_operations self = self.active_operations == 0

-- `direct_attempts`, on the kinds of the attempts.
unfoldable pub direct_attempts : List PathKind → List PathKind
unfolding is_direct
direct_attempts [] = []
direct_attempts (kind ∷ kinds) =
    let rest = direct_attempts kinds in if is_direct kind then kind ∷ rest else rest
