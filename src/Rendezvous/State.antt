-- ===== src/Rendezvous/State.antt =====
-- crates/rustgo-rendezvous/src/state.rs: the state of one rendezvous session. A method returns its
-- result and the state that it leaves. A session identifier is its 32 bytes, a step is a u64, and a
-- candidate generation is a u64 that is not 0.
pub mod Replay
mod Tests
use rustgo.Prelude.{
  ℕ, ◌+◌, ◌^◌, Bool, true, false, not, Option, none, some, ltb, leb, ◌==◌, if◌then◌else◌, Result,
  ok, err,
}
use rustgo.Prelude.Bytes.{Bytes, eq_bytes}

pub data RendezvousPhase : Type 0 where
  new requested accepted closed : RendezvousPhase

pub record RendezvousState : Type 0 where
  pub session_id : Bytes
  pub phase : RendezvousPhase
  pub last_step : ℕ
  pub generation : ℕ

pub data StateError : Type 0 where
  replayed_step : StateError
  generation_mismatch : (expected actual : ℕ) → StateError
  session_mismatch : StateError
  expired : StateError
  illegal_transition : StateError

-- `CandidateGeneration::INITIAL`
abbrev pub initial_generation : ℕ
initial_generation = 1

unfoldable pub new_state : Bytes → RendezvousState
new_state session_id = record {
  session_id = session_id;
  phase = new;
  last_step = 0;
  generation = initial_generation;
}

unfoldable pub requested_state : Bytes → ℕ → RendezvousState
requested_state session_id step = record {
  session_id = session_id;
  phase = requested;
  last_step = step;
  generation = initial_generation;
}

is_new : RendezvousPhase → Bool
is_new new = true
is_new _ = false

is_requested : RendezvousPhase → Bool
is_requested requested = true
is_requested _ = false

abbrev pub Outcome : Type 0
Outcome = Result StateError (Unit {0}) × RendezvousState

unfoldable pub accept_step : RendezvousState → ℕ → Result StateError (Unit {0})
accept_step self step = if leb step self.last_step then err replayed_step else ok tt

unfoldable pub accept_generation : RendezvousState → ℕ → Result StateError (Unit {0})
accept_generation self generation =
    if generation == self.generation
    then ok tt
    else err (generation_mismatch self.generation generation)

-- `check?; …`: the rest of a method, which runs only after a check that passed.
abbrev after : Result StateError (Unit {0}) → RendezvousState → Outcome → Outcome
after (ok _) self rest = rest
after (err e) self rest = (err e, self)

unfoldable pub advance_step : RendezvousState → ℕ → Outcome
unfolding accept_step
advance_step self step =
    after (accept_step self step) self (ok tt, record self { last_step = step })

unfoldable pub request : RendezvousState → ℕ → ℕ → Outcome
unfolding accept_step is_new
request self step generation =
    if not (is_new self.phase)
    then (err illegal_transition, self)
    else after (accept_step self step) self
        (ok tt, record self { phase = requested; last_step = step; generation = generation })

unfoldable pub provider_decision : RendezvousState → ℕ → ℕ → Bool → Outcome
unfolding accept_step accept_generation is_requested
provider_decision self step generation decision =
    if not (is_requested self.phase)
    then (err illegal_transition, self)
    else after (accept_step self step) self (
        after (accept_generation self generation) self
          (ok tt, record self { last_step = step; phase = if decision then accepted else closed }))

-- `checked_add(1)` of a u64.
abbrev checked_suc : ℕ → Option ℕ
checked_suc n = if ltb (n + 1) (2 ^ 64) then some (n + 1) else none

unfoldable pub advance_generation : RendezvousState → ℕ → Outcome
advance_generation self generation = elim (checked_suc self.generation) [
  | none ↦ (err illegal_transition, self)
  | some expected ↦
      if generation == expected
      then (ok tt, record self { generation = generation })
      else (err (generation_mismatch self.generation generation), self)
]

unfoldable pub accept_metadata : RendezvousState → Bytes → ℕ → ℕ → ℕ → ℕ → Outcome
unfolding accept_generation advance_step
accept_metadata self session_id step generation expires_unix_secs now_unix_secs =
    if not (eq_bytes session_id self.session_id)
    then (err session_mismatch, self)
    else if leb expires_unix_secs now_unix_secs
    then (err expired, self)
    else after (accept_generation self generation) self (advance_step self step)
