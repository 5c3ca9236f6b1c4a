-- ===== src/Path/Install/Invariant.antt =====
-- What holds of a path manager in every state that its tasks can reach, however they interleave.
use rustgo.Prelude.{
  ◌≤◌, ◌≡◌, ◌⊎◌, Bool, true, false, Option, none, some, List, [], ◌∷◌, length, arith,
}
use rustgo.Path.State.{
  PathState, discovering, checking, direct, relay, rechecking, closed, is_direct,
}
use rustgo.Path.Manager.{OwnedSelected, OwnedRecheck, map_option, max_recorded_events}
use rustgo.Path.Manager.Events.{length-push_recorded}
use rustgo.Path.Install.Steps.{
  Manager, Op, apply, run, record_op, begin_op, begin_failure_op, close_op, cancel_lifetime_op,
  background_op, failed_op, finish_op, drop_guard_op, install_op, start_recheck_op,
  task_finished_op, drop_op,
}

abbrev pub directness : {H : Type 0} → OwnedSelected H → Bool
unfolding is_direct
directness owner = is_direct owner.path.kind

-- The resources that a manager owns in each of its states.
abbrev pub Owns : {H : Type 0} → PathState → Option (OwnedSelected H) → Option OwnedRecheck → Type 0
Owns discovering selected recheck = (selected ≡ none) × (recheck ≡ none)
Owns checking selected recheck = (selected ≡ none) × (recheck ≡ none)
Owns direct selected recheck = map_option directness selected ≡ some true
Owns relay selected recheck = map_option directness selected ≡ some false
Owns rechecking selected recheck =
    ((selected ≡ none) × (recheck ≡ none)) ⊎ (map_option directness selected ≡ some false)
Owns closed selected recheck = (selected ≡ none) × (recheck ≡ none)

module _ {H : Type 0} where
  abbrev pub IsOwner : Manager H → Type 0
  IsOwner m = Owns m.held.state.current m.held.selected m.held.recheck

  pub apply-IsOwner : (m : Manager H) (op : Op H) → IsOwner m → IsOwner (apply m op)
  unfolding apply is_direct
  apply-IsOwner m (record_op event) h = ground arith
  apply-IsOwner m begin_op h = ground arith
  apply-IsOwner m begin_failure_op h = ground arith
  apply-IsOwner m close_op h = ground arith
  apply-IsOwner m cancel_lifetime_op h = ground arith
  apply-IsOwner m (background_op id) h = ground arith
  apply-IsOwner m (failed_op id) h = ground arith
  apply-IsOwner m (finish_op expected) h = ground arith
  apply-IsOwner m drop_guard_op h = ground arith
  apply-IsOwner m (install_op caller expected recheck_id winner) h = ground arith
  apply-IsOwner m start_recheck_op h = ground arith
  apply-IsOwner m task_finished_op h = ground arith
  apply-IsOwner m drop_op h = ground arith

  -- A path is selected exactly as the state of a manager says: none while it is discovering,
  -- checking or closed, a direct one when it is direct, the relay when it is on the relay, and
  -- none or the relay when it is rechecking; a recheck is owned only beside a selected path. If
  -- this holds of a manager, it holds after any operations of its tasks, however they
  -- interleave.
  pub run-IsOwner : (m : Manager H) (ops : List (Op H)) → IsOwner m → IsOwner (run m ops)
  unfolding run
  run-IsOwner m [] h = h
  run-IsOwner m (op ∷ ops) h = run-IsOwner (apply m op) ops (apply-IsOwner m op h)

  abbrev pub IsCounted : Manager H → Type 0
  IsCounted m = m.held.active_operations ≡ m.guards

  apply-IsCounted : (m : Manager H) (op : Op H) → IsCounted m → IsCounted (apply m op)
  unfolding apply
  apply-IsCounted m (record_op event) h = ground arith
  apply-IsCounted m (finish_op expected) h = ground arith
  apply-IsCounted m (install_op caller expected recheck_id winner) h = ground arith
  apply-IsCounted m _ h = ground arith

  -- If the count of active operations is that of the guards that are alive, it stays so after
  -- any operations of the tasks, so that a close that waits for the count to be 0 waits for
  -- every guard to be finished or dropped.
  pub run-IsCounted : (m : Manager H) (ops : List (Op H)) → IsCounted m → IsCounted (run m ops)
  unfolding run
  run-IsCounted m [] h = h
  run-IsCounted m (op ∷ ops) h = run-IsCounted (apply m op) ops (apply-IsCounted m op h)

  -- What never changes after the end: the state, the events and the resources.
  pub record Ended (m n : Manager H) : Type 0 where
    pub same_state : n.held.state ≡ m.held.state
    pub same_events : n.held.events ≡ m.held.events
    pub no_selected : n.held.selected ≡ none
    pub no_recheck : n.held.recheck ≡ none

  pub apply-Ended :
      (m : Manager H) (op : Op H)
      → m.held.state.current ≡ closed
      → m.held.selected ≡ none
      → m.held.recheck ≡ none
      → Ended m (apply m op)
  unfolding apply
  apply-Ended m (record_op event) h s r = ground arith
  apply-Ended m (install_op caller expected recheck_id winner) h s r = ground arith
  apply-Ended m _ h s r = ground arith

  abbrev pub IsBounded : Manager H → Type 0
  IsBounded m = length m.held.events ≤ max_recorded_events

  apply-IsBounded : (m : Manager H) (op : Op H) → IsBounded m → IsBounded (apply m op)
  unfolding apply
  apply-IsBounded m (record_op event) h = grind (arith, length-push_recorded)
  apply-IsBounded m (finish_op expected) h = grind (arith, length-push_recorded)
  apply-IsBounded m (install_op caller expected recheck_id winner) h =
      grind (arith, length-push_recorded)
  apply-IsBounded m _ h = grind (arith, length-push_recorded)

  -- A manager that keeps no more events than its bound allows does so however long it runs.
  run-IsBounded : (m : Manager H) (ops : List (Op H)) → IsBounded m → IsBounded (run m ops)
  unfolding run
  run-IsBounded m [] h = h
  run-IsBounded m (op ∷ ops) h = run-IsBounded (apply m op) ops (apply-IsBounded m op h)
