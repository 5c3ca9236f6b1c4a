-- ===== src/Transport/Backoff/Tests.antt =====
-- The theorems on the backoff, applied to a configuration of one second to ten; the stand-in
-- source of jitter draws half of what it may.
use rustgo.Prelude.{ℕ, ◌+◌, ◌/◌, ◌≡◌, refl, none, false, ok, arith}
use rustgo.Transport.Backoff.{BackoffConfig, Backoff, with_sources, next_delay}
use rustgo.Transport.Backoff.Bounds.{IsValid, IsConfig, Delayed, exponential, next_delay_bounds}

abbrev half : ℕ → ℕ → ℕ × ℕ
half draws range = (range / 2, draws + 1)

abbrev config : BackoffConfig
config = record {
  initial_delay = 1000000000;
  maximum_delay = 10000000000;
  jitter = 250000000;
  stable_connection_reset_after = 60000000000;
}

abbrev fresh : Backoff ℕ
fresh = record {
  config = config;
  jitter_source = 0;
  next_exponential_delay = 1000000000;
  connected_since = none;
  completed_connection_was_stable = false;
}

config-IsConfig : IsConfig config
config-IsConfig = record {
  starts = omega arith;
  ordered = omega arith;
  resets = omega arith;
  representable = omega arith;
}

fresh-IsValid : IsValid fresh
fresh-IsValid = record { config = config-IsConfig; at_least = omega arith; at_most = omega arith }

next_delay_bounds_example : Delayed fresh.config (exponential 5 fresh) (next_delay half 5 fresh)
next_delay_bounds_example = next_delay_bounds half 5 fresh fresh-IsValid

created : with_sources config 0 ≡ ok fresh
unfolding with_sources
created = refl
