-- ===== src/Path/Install/Steps.antt =====
-- The critical sections of a path manager as operations on one state, so that any interleaving of
-- its tasks is a list of them. `guards` counts the operation guards that are alive.
use rustgo.Prelude.{ℕ, suc, zero, ◌+◌, Bool, true, false, Option, List, [], ◌∷◌, Result, ok, err}
use rustgo.Path.State.{PathState, checking, PathEvent}
use rustgo.Path.Manager.{
  SelectedPath, ManagerRecord, OwnedRecheck, map_option, new_record, record_event, begin,
  begin_failure, close_atomic, begin_background_recheck, finish_failed_recheck, finish, drop_guard,
}
use rustgo.Path.Install.{install_winner, start_recheck_turn, drop_manager}

pub record Manager (H : Type 0) : Type 0 where
  pub held : ManagerRecord H
  pub lifetime_cancelled : Bool
  pub guards : ℕ

unfoldable pub new_manager : {H : Type 0} → Manager H
unfolding new_record
new_manager = record { held = new_record; lifetime_cancelled = false; guards = 0 }

pub data Op (H : Type 0) : Type 0 where
  record_op : PathEvent → Op H
  begin_op : Op H
  begin_failure_op : Op H
  close_op : Op H
  cancel_lifetime_op : Op H
  background_op : (id : ℕ) → Op H
  failed_op : (id : ℕ) → Op H
  finish_op : PathState → Op H
  drop_guard_op : Op H
  install_op :
      (caller_cancelled : Bool) → PathState → (recheck_id : Option ℕ) → SelectedPath H → Op H
  start_recheck_op : Op H
  task_finished_op : Op H
  drop_op : Op H

abbrev pub is_ok : {E A : Type 0} → Result E A → Bool
is_ok (ok _) = true
is_ok (err _) = false

abbrev pub one_if : Bool → ℕ
one_if true = 1
one_if false = 0

abbrev pub task_finished : OwnedRecheck → OwnedRecheck
task_finished recheck = record recheck { is_finished = true }

-- A guard can be finished or dropped only while one is alive.
abbrev pub release : {H : Type 0} → Manager H → ManagerRecord H → ℕ → Manager H
release m after zero = m
release m after (suc n) = record m { held = after; guards = n }

unfoldable pub apply : {H : Type 0} → Manager H → Op H → Manager H
unfolding begin begin_failure close_atomic record_event begin_background_recheck
    finish_failed_recheck finish drop_guard install_winner start_recheck_turn drop_manager
apply m (record_op event) = record m { held = record_event m.held event }
apply m begin_op =
    let (result, after) = begin m.held checking in
    record m { held = after; guards = m.guards + one_if (is_ok result) }
apply m begin_failure_op =
    let (result, after) = begin_failure m.held in
    record m { held = after; guards = m.guards + one_if (is_ok result) }
apply m close_op = record m { held = (close_atomic m.held).1 }
apply m cancel_lifetime_op = record m { lifetime_cancelled = true }
apply m (background_op id) = record m { held = (begin_background_recheck m.held id).1 }
apply m (failed_op id) = record m { held = (finish_failed_recheck m.held id).1 }
apply m (finish_op expected) = release m (finish m.held expected).1 m.guards
apply m drop_guard_op = release m (drop_guard m.held) m.guards
apply m (install_op caller expected recheck_id winner) = record m {
  held = (install_winner m.held caller m.lifetime_cancelled expected recheck_id winner).1;
}
apply m start_recheck_op = record m { held = (start_recheck_turn m.held m.lifetime_cancelled).1 }
apply m task_finished_op = record m {
  held = record m.held { recheck = map_option task_finished m.held.recheck };
}
apply m drop_op = record m { held = (drop_manager m.held).1; lifetime_cancelled = true }

unfoldable pub run : {H : Type 0} → Manager H → List (Op H) → Manager H
run m [] = m
run m (op ∷ ops) = run (apply m op) ops
