-- ===== src/Path/Install/Tests.antt =====
-- The theorems on path managers, applied to one that falls back to the relay and rechecks.
use rustgo.Prelude.{ℕ, ◌≡◌, ◌≢◌, ◌⊎◌, ◌↔◌, refl, true, false, none, some, List, [], ◌∷◌, ok, arith}
use rustgo.Path.State.{checking, relay, rechecking, closed, quic_v6, relay_path, attempt_started}
use rustgo.Path.Manager.{SelectedPath, ManagerRecord, cancel_selected, map_option}
use rustgo.Path.Install.{install_winner, to_list, id_matches}
use rustgo.Path.Install.Steps.{
  Manager, new_manager, Op, apply, run, begin_op, install_op, start_recheck_op, finish_op,
  background_op, close_op, record_op,
}
use rustgo.Path.Install.Invariant.{IsOwner, IsCounted, IsBounded, Ended, run-IsOwner, run-IsCounted}
use rustgo.Path.Install.Ownership.{owner_of, install_winner-owners, install_winner_iff, run-Ended}

abbrev relayed : SelectedPath ℕ
relayed = record { kind = relay_path; handle = 8 }

abbrev promotion : SelectedPath ℕ
promotion = record { kind = quic_v6; handle = 9 }

abbrev start : Manager ℕ
start = new_manager

abbrev life : List (Op ℕ)
life =
    begin_op
    ∷ record_op (attempt_started relay_path)
    ∷ install_op false checking none relayed
    ∷ start_recheck_op
    ∷ finish_op relay
    ∷ background_op 1
    ∷ install_op false rechecking (some 1) promotion
    ∷ []

start-IsOwner : IsOwner start
unfolding new_manager
start-IsOwner = (refl, refl)

start-IsCounted : IsCounted start
unfolding new_manager
start-IsCounted = refl

start-IsBounded : IsBounded start
unfolding new_manager
start-IsBounded = omega arith

run-IsOwner_example : IsOwner (run start life)
run-IsOwner_example = run-IsOwner start life start-IsOwner

run-IsCounted_example : IsCounted (run start life)
run-IsCounted_example = run-IsCounted start life start-IsCounted

abbrev over : Manager ℕ
over = run start (begin_op ∷ close_op ∷ [])

over-IsOwner : IsOwner over
over-IsOwner = run-IsOwner start (begin_op ∷ close_op ∷ []) start-IsOwner

over_closed : over.held.state.current ≡ closed
unfolding new_manager run apply
over_closed = refl

run-Ended_example : Ended over (run over life)
run-Ended_example = run-Ended over life over-IsOwner over_closed

abbrev rechecked : ManagerRecord ℕ
rechecked =
    (run start (
      begin_op
      ∷ install_op false checking none relayed
      ∷ start_recheck_op
      ∷ background_op 1
      ∷ [])).held

install_winner-owners_example :
    let out = install_winner rechecked false false rechecking (some 1) promotion in
    ((out.0.0 ≡ ok promotion)
      × (out.1.selected ≡ some (owner_of promotion))
      × (out.0.1 ≡ to_list (map_option cancel_selected rechecked.selected)))
    ⊎ ((out.0.0 ≢ ok promotion)
        × (out.1 ≡ rechecked)
        × (out.0.1 ≡ cancel_selected (owner_of promotion) ∷ []))
install_winner-owners_example =
    install_winner-owners rechecked false false rechecking (some 1) promotion

install_winner_iff_example :
    ((install_winner rechecked false false rechecking (some 1) promotion).0.0 ≡ ok promotion) ↔ (
      (false ≡ false)
      × (false ≡ false)
      × (rechecked.state.current ≡ rechecking)
      × ((rechecking ≡ checking) ⊎ (rechecking ≡ rechecking))
      × (id_matches rechecked (some 1) ≡ true))
install_winner_iff_example = install_winner_iff rechecked false false rechecking (some 1) promotion
