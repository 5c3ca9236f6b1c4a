-- ===== src/Path/Install.antt =====
-- crates/rustgo-path/src/lib.rs and health.rs: the installation of the path that won a race, the
-- turns in which a background recheck is started, and the drop of the manager.
pub mod Steps
pub mod Invariant
pub mod Ownership
mod Tests
use rustgo.Prelude.{
  ℕ, ◌+◌, ◌-◌, ◌*◌, ◌%◌, ◌^◌, Bool, true, false, not, ◌&&◌, ◌||◌, Option, none, some, List, [], ◌∷◌,
  ◌++◌, length, ltb, leb, ◌==◌, if◌then◌else◌, Result, ok, err,
}
use rustgo.Path.State.{
  PathState, discovering, checking, direct, relay, rechecking, closed, PathKind, is_direct,
  PathEvent, state_changed, selected_event, relay_fallback, recheck_started, recheck_scheduled,
  promoted, closed_event, PathError, illegal_transition, cancelled_error, PathStateMachine,
  new_machine, transition, same_state, invalid_configuration,
}
use rustgo.Path.Manager.{
  SelectedPath, OwnedSelected, OwnedRecheck, OwnedResources, ManagerRecord, recheck_is, push_event,
  record_transition, cancel_selected, cancelled_resources, map_option,
}

abbrev pub is_some : {A : Type 0} → Option A → Bool
is_some none = false
is_some (some a) = true

abbrev pub to_list : {A : Type 0} → Option A → List A
to_list none = []
to_list (some a) = a ∷ []

-- The result of `install_winner`, the owners that it shuts down, and the record that it leaves.
abbrev pub Installed : Type 0 → Type 0
Installed H = (Result PathError (SelectedPath H) × List (OwnedSelected H)) × ManagerRecord H

abbrev pub next_state : PathKind → PathState
unfolding is_direct
next_state kind = if is_direct kind then direct else relay

-- What `start_recheck` does in one turn of its loop: it returns, takes a finished task out, or
-- starts a task.
pub data Turn : Type 0 where
  returned : Turn
  took : OwnedRecheck → Turn
  started : OwnedRecheck → Turn

-- `max` of the wrapped successor and 1.
abbrev pub following_id : ℕ → ℕ
following_id id = let next = (id + 1) % 2 ^ 64 in if next == 0 then 1 else next

module _ {H : Type 0} where
  -- `recheck_id.is_none_or(|id| …)`
  abbrev pub id_matches : ManagerRecord H → Option ℕ → Bool
  id_matches self none = true
  id_matches self (some id) = recheck_is self.recheck id

  -- The part of `install_winner` that follows a transition that passed.
  unfoldable pub replace_selected : ManagerRecord H → Option ℕ → OwnedSelected H → ManagerRecord H
  unfolding push_event is_direct
  replace_selected moved recheck_id owner =
      let chosen =
        push_event (record moved { selected = some owner }) (selected_event owner.path.kind) in
      if not (is_direct owner.path.kind)
      then push_event chosen relay_fallback
      else if is_some recheck_id
      then push_event chosen (promoted owner.path.kind)
      else chosen

  -- The two tokens are read before the lock is taken, so their values are parameters, and the record is
  -- the one that is found under the lock. Of the owner's tokens and its watch on the caller's token the
  -- model has one flag: whether the manager has cancelled the owner, which it has not when it makes it.
  unfoldable pub install_winner :
      ManagerRecord H
      → (caller_cancelled lifetime_cancelled : Bool) → PathState
      → Option ℕ
      → SelectedPath H
      → Installed H
  unfolding record_transition replace_selected same_state cancel_selected is_direct
  install_winner self caller_cancelled lifetime_cancelled expected recheck_id winner =
      let owner : OwnedSelected H = record { path = winner; cancelled = false } in
      let next = next_state winner.kind in
      let failed : PathError → Installed H = λ e. ((err e, cancel_selected owner ∷ []), self) in
      let refused : Installed H =
        if same_state self.state.current closed
        then failed cancelled_error
        else failed (illegal_transition self.state.current next) in
      if caller_cancelled || lifetime_cancelled
      then failed cancelled_error
      else if not (same_state self.state.current expected) || not (id_matches self recheck_id)
      then refused
      else elim (record_transition self next).0 [
        | err e ↦ refused
        | ok _ ↦
            let moved = (record_transition self next).1 in
            (
              (ok winner, to_list (map_option cancel_selected moved.selected)),
              replace_selected moved recheck_id owner,
            )
      ]

  unfoldable pub start_recheck_turn :
      ManagerRecord H → (lifetime_cancelled : Bool) → Turn × ManagerRecord H
  unfolding same_state
  start_recheck_turn self lifetime_cancelled =
      if not (same_state self.state.current relay) then (returned, self) else elim self.recheck [
        | some recheck ↦
            if not recheck.is_finished
            then (returned, self)
            else (took recheck, record self { recheck = none })
        | none ↦
            let fresh : OwnedRecheck = record {
              id = self.next_recheck_id;
              cancelled = lifetime_cancelled;
              is_finished = false;
            } in
            (
              started fresh,
              record self {
                next_recheck_id = following_id self.next_recheck_id;
                recheck = some fresh;
              },
            )
      ]

  -- The critical section of `PathManager::drop`.
  unfoldable pub drop_manager : ManagerRecord H → OwnedResources H × ManagerRecord H
  unfolding record_transition push_event same_state
  drop_manager self =
      let shut =
        if not (same_state self.state.current closed)
        then push_event (record_transition self closed).1 closed_event
        else self in
      (cancelled_resources shut, record shut { selected = none; recheck = none })
