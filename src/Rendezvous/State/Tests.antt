-- ===== src/Rendezvous/State/Tests.antt =====
-- The theorems on rendezvous sessions, applied to a session that is requested and accepted.
use rustgo.Prelude.{◌<◌, ◌≡◌, ◌≢◌, ◌↔◌, refl, true, List, [], ◌∷◌, ok, err, arith}
use rustgo.Prelude.Bytes.{Bytes}
use rustgo.Rendezvous.State.{RendezvousState, illegal_transition, new_state, accept_metadata}
use rustgo.Rendezvous.State.Replay.{
  Op, request_op, decision_op, generation_op, metadata_op, apply, run, Onward, run-Onward,
  no_replay, accept_metadata_iff,
}

abbrev session : Bytes
session = 1 ∷ 2 ∷ []

abbrev start : RendezvousState
start = new_state session

abbrev exchange : List Op
exchange =
    request_op 1 1 ∷ decision_op 2 1 true ∷ generation_op 2 ∷ metadata_op session 3 2 100 50 ∷ []

premature : (apply start (decision_op 1 1 true)).0 ≡ err illegal_transition
unfolding apply new_state
premature = refl

run-Onward_example : Onward start (run start exchange)
run-Onward_example = run-Onward start exchange

requested_once : (apply start (request_op 1 1)).0 ≡ ok tt
unfolding apply new_state
requested_once = refl

no_replay_example :
    (apply
      (run (apply start (request_op 1 1)).1 (decision_op 2 1 true ∷ []))
      (metadata_op session 1 1 100 50)).0
    ≢ ok tt
no_replay_example =
    no_replay start (request_op 1 1) (metadata_op session 1 1 100 50) (decision_op 2 1 true ∷ []) 1
      1 refl requested_once refl (omega arith)

accept_metadata_iff_example :
    (accept_metadata start session 1 1 100 50 ≡ (ok tt, record start { last_step = 1 })) ↔ (
      (session ≡ start.session_id)
      × (50 < 100)
      × (1 ≡ start.generation)
      × (start.last_step < 1)
      × (record start { last_step = 1 } ≡ record start { last_step = 1 }))
accept_metadata_iff_example =
    accept_metadata_iff start (record start { last_step = 1 }) session 1 1 100 50
