-- ===== src/Transport/Backoff.antt =====
-- crates/rustgo-transport/src/backoff.rs: the delay before a reconnection. A `Duration` is its
-- number of nanoseconds, at most `max_duration`; its subtraction saturates at 0. The clock is read
-- once in a call at most, and its reading is the argument `now`; the source of jitter is a state
-- with a function that samples it, about which nothing is assumed.
pub mod Bounds
pub mod Stability
mod Tests
use rustgo.Prelude.{
  ℕ, ◌+◌, ◌-◌, ◌*◌, ◌/◌, ◌%◌, ◌^◌, ◌≤◌, ◌<◌, min, Bool, true, false, ◌||◌, Option, none, some, ltb,
  leb, ◌==◌, if◌then◌else◌, Result, ok, err,
}

-- `Duration::MAX`: u64::MAX seconds and 999,999,999 nanoseconds.
abbrev pub max_duration : ℕ
max_duration = 2 ^ 64 * 1000000000 - 1

-- `saturating_mul`, `saturating_add` of `Duration`.
abbrev pub saturate : ℕ → ℕ
saturate n = min n max_duration

pub record BackoffConfig : Type 0 where
  pub initial_delay : ℕ
  pub maximum_delay : ℕ
  pub jitter : ℕ
  pub stable_connection_reset_after : ℕ

pub data BackoffError : Type 0 where
  invalid_configuration : BackoffError

pub record Backoff (J : Type 0) : Type 0 where
  pub config : BackoffConfig
  pub jitter_source : J
  pub next_exponential_delay : ℕ
  pub connected_since : Option ℕ
  pub completed_connection_was_stable : Bool

unfoldable pub duration_from_nanos : ℕ → ℕ
duration_from_nanos nanoseconds =
    let seconds = nanoseconds / 1000000000 % 2 ^ 64 in
    let subsecond_nanoseconds = nanoseconds % 1000000000 % 2 ^ 32 in
    seconds * 1000000000 + subsecond_nanoseconds

-- Whether a connection that began at `since` has lasted.
abbrev pub was_stable : BackoffConfig → ℕ → Option ℕ → Bool
was_stable config now none = false
was_stable config now (some since) = leb config.stable_connection_reset_after (now - since)

module _ {J : Type 0} where
  unfoldable pub with_sources : BackoffConfig → J → Result BackoffError (Backoff J)
  with_sources config jitter_source =
      if config.initial_delay == 0
        || ltb config.maximum_delay config.initial_delay
        || config.stable_connection_reset_after == 0
      then err invalid_configuration
      else ok (record {
        config = config;
        jitter_source = jitter_source;
        next_exponential_delay = config.initial_delay;
        connected_since = none;
        completed_connection_was_stable = false;
      })

  unfoldable pub mark_connected : ℕ → Backoff J → Backoff J
  mark_connected now self = record self {
    connected_since = some now;
    completed_connection_was_stable = false;
  }

  abbrev pub disconnected : Option ℕ → ℕ → Backoff J → Backoff J
  disconnected none now self = self
  disconnected (some since) now self = record self {
    connected_since = none;
    completed_connection_was_stable = was_stable self.config now (some since);
  }

  unfoldable pub mark_disconnected : ℕ → Backoff J → Backoff J
  mark_disconnected now self = disconnected self.connected_since now self

  unfoldable pub reset_attempts : Backoff J → Backoff J
  reset_attempts self = record self {
    next_exponential_delay = self.config.initial_delay;
    connected_since = none;
    completed_connection_was_stable = false;
  }

  -- The first part of `next_delay`: both marks of stability are used up, and either resets.
  settle : ℕ → Backoff J → Backoff J
  settle now self =
      let used = record self { connected_since = none; completed_connection_was_stable = false } in
      if was_stable self.config now self.connected_since || self.completed_connection_was_stable
      then reset_attempts used
      else used

  -- The rest of it: the delay of this attempt, and the doubled one of the next.
  delay_of : (J → ℕ → ℕ × J) → Backoff J → ℕ × Backoff J
  delay_of sample self =
      let exponential = self.next_exponential_delay in
      let lower = exponential - self.config.jitter in
      let upper = min (saturate (exponential + self.config.jitter)) self.config.maximum_delay in
      let span = upper - lower in
      let (drawn, jitter_source) = sample self.jitter_source span in
      let offset = min drawn span in
      (
        saturate (lower + duration_from_nanos offset),
        record self {
          jitter_source = jitter_source;
          next_exponential_delay = min (saturate (exponential * 2)) self.config.maximum_delay;
        },
      )

  unfoldable pub next_delay : (J → ℕ → ℕ × J) → ℕ → Backoff J → ℕ × Backoff J
  unfolding settle delay_of reset_attempts duration_from_nanos
  next_delay sample now self = delay_of sample (settle now self)
