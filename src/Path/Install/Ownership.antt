-- ===== src/Path/Install/Ownership.antt =====
-- Who owns a winning path after `install_winner`, and what is left after the end.
use rustgo.Prelude.{
  ℕ, ◌≡◌, ap, subst, ◌≢◌, ◌⊎◌, ◌↔◌, refl, ◌∙◌, Bool, true, false, Option, none, some, List, [], ◌∷◌,
  ok, arith,
}
use rustgo.Path.State.{PathState, closed, checking, rechecking, same_state_iff}
use rustgo.Path.Manager.{SelectedPath, OwnedSelected, ManagerRecord, map_option, cancel_selected}
use rustgo.Path.Install.{install_winner, to_list, id_matches}
use rustgo.Path.Install.Steps.{Manager, Op, apply, run}
use rustgo.Path.Install.Invariant.{Owns, IsOwner, apply-IsOwner, Ended, apply-Ended}

module _ {H : Type 0} where
  abbrev pub owner_of : SelectedPath H → OwnedSelected H
  owner_of winner = record { path = winner; cancelled = false }

  -- What becomes of the paths: a winner that is installed is the selected one, and the one that it
  -- displaces is shut down; one that is refused is shut down and leaves the record as it was.
  pub install_winner-owners :
      (self : ManagerRecord H) (caller lifetime : Bool) (expected : PathState)
      (recheck_id : Option ℕ) (winner : SelectedPath H)
      → let out = install_winner self caller lifetime expected recheck_id winner in
        ((out.0.0 ≡ ok winner)
          × (out.1.selected ≡ some (owner_of winner))
          × (out.0.1 ≡ to_list (map_option cancel_selected self.selected)))
        ⊎ ((out.0.0 ≢ ok winner)
            × (out.1 ≡ self)
            × (out.0.1 ≡ cancel_selected (owner_of winner) ∷ []))
  unfolding install_winner
  install_winner-owners self caller lifetime expected recheck_id winner = ground arith

  -- A winner is installed exactly if neither token is cancelled, the manager is in the expected
  -- state, one that is checking or rechecking, and the recheck that ran the race, if one did, is
  -- the present one.
  pub install_winner_iff :
      (self : ManagerRecord H) (caller lifetime : Bool) (expected : PathState)
      (recheck_id : Option ℕ) (winner : SelectedPath H)
      → ((install_winner self caller lifetime expected recheck_id winner).0.0 ≡ ok winner) ↔ (
          (caller ≡ false)
          × (lifetime ≡ false)
          × (self.state.current ≡ expected)
          × ((expected ≡ checking) ⊎ (expected ≡ rechecking))
          × (id_matches self recheck_id ≡ true))
  unfolding install_winner
  install_winner_iff self caller lifetime expected recheck_id winner =
      ground (arith, same_state_iff self.state.current expected)

  owns_nothing :
      (m : Manager H)
      → IsOwner m
      → m.held.state.current ≡ closed
      → (m.held.selected ≡ none) × (m.held.recheck ≡ none)
  owns_nothing m h c = subst (λ s. Owns s m.held.selected m.held.recheck) c h

  -- After the end nothing comes back: if a manager that is closed owns no path and no recheck,
  -- as its state says, then whatever its tasks do, its state and its events stay as they are and
  -- it owns neither.
  pub run-Ended :
      (m : Manager H) (ops : List (Op H))
      → IsOwner m
      → m.held.state.current ≡ closed
      → Ended m (run m ops)
  unfolding run
  run-Ended m [] h c =
      let owned = owns_nothing m h c in
      record { same_state = refl; same_events = refl; no_selected = owned.0; no_recheck = owned.1 }
  run-Ended m (op ∷ ops) h c =
      let owned = owns_nothing m h c in
      let first = apply-Ended m op c owned.0 owned.1 in
      let rest =
        run-Ended (apply m op) ops (apply-IsOwner m op h)
          (ap (λ s. s.current) first.same_state ∙ c) in
      record {
        same_state = rest.same_state ∙ first.same_state;
        same_events = rest.same_events ∙ first.same_events;
        no_selected = rest.no_selected;
        no_recheck = rest.no_recheck;
      }
