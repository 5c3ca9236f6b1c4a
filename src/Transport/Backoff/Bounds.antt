-- ===== src/Transport/Backoff/Bounds.antt =====
-- The bounds of the delay, its growth, and the invariant of the state.
use rustgo.Prelude.{
  ℕ, ◌+◌, ◌-◌, ◌*◌, ◌≤◌, ◌<◌, ◌≡◌, ◌≢◌, ◌↔◌, err, refl, subst, min, ◌||◌, ok, arith, if◌then◌else◌,
}
use rustgo.Transport.Backoff.{
  max_duration, saturate, BackoffConfig, invalid_configuration, Backoff, with_sources,
  reset_attempts, was_stable, settle, delay_of, next_delay, duration_from_nanos,
}

-- A configuration that is accepted, of values that a `Duration` can have.
pub record IsConfig (c : BackoffConfig) : Type 0 where
  pub starts : 0 < c.initial_delay
  pub ordered : c.initial_delay ≤ c.maximum_delay
  pub resets : 0 < c.stable_connection_reset_after
  pub representable : c.maximum_delay ≤ max_duration

nanos : (n : ℕ) → n ≤ max_duration → duration_from_nanos n ≡ n
unfolding duration_from_nanos
nanos n h = omega arith

-- The offset that is drawn keeps the delay between its two bounds.
drawn_between :
    (e j m drawn : ℕ)
    → e ≤ m
    → m ≤ max_duration
    → let lower = e - j in
      let offset = min drawn (min (saturate (e + j)) m - lower) in
      let delay = saturate (lower + duration_from_nanos offset) in
      (e ≤ delay + j) × (delay ≤ e + j) × (delay ≤ m)
drawn_between e j m drawn h k =
    rw (nanos (min drawn (min (saturate (e + j)) m - (e - j))) (omega arith)) (omega arith)

module _ {J : Type 0} where
  pub record IsValid (b : Backoff J) : Type 0 where
    pub config : IsConfig b.config
    pub at_least : b.config.initial_delay ≤ b.next_exponential_delay
    pub at_most : b.next_exponential_delay ≤ b.config.maximum_delay

  settle-IsValid : (now : ℕ) {b : Backoff J} → IsValid b → IsValid (settle now b)
  unfolding settle reset_attempts
  settle-IsValid now v = ground arith

  -- The exponential delay that an attempt at `now` uses, before jitter.
  abbrev pub exponential : ℕ → Backoff J → ℕ
  exponential now b =
      if was_stable b.config now b.connected_since || b.completed_connection_was_stable
      then b.config.initial_delay
      else b.next_exponential_delay

  settle-config : (now : ℕ) (b : Backoff J) → (settle now b).config ≡ b.config
  unfolding settle reset_attempts
  settle-config now b = ground arith

  settle-exponential :
      (now : ℕ) (b : Backoff J) → (settle now b).next_exponential_delay ≡ exponential now b
  unfolding settle reset_attempts
  settle-exponential now b = ground arith

  next_delay-settle :
      (sample : J → ℕ → ℕ × J) (now : ℕ) (b : Backoff J)
      → next_delay sample now b ≡ delay_of sample (settle now b)
  unfolding next_delay
  next_delay-settle sample now b = refl

  -- What an attempt that uses the exponential delay `e` gives.
  abbrev pub Delayed : BackoffConfig → ℕ → ℕ × Backoff J → Type 0
  Delayed c e (delay, b') =
      IsValid b'
      × (e ≤ delay + c.jitter)
      × (delay ≤ e + c.jitter)
      × (delay ≤ c.maximum_delay)
      × (b'.next_exponential_delay ≡ min (2 * e) c.maximum_delay)

  delay_of_bounds :
      (sample : J → ℕ → ℕ × J) (b : Backoff J)
      → IsValid b
      → Delayed b.config b.next_exponential_delay (delay_of sample b)
  unfolding delay_of
  delay_of_bounds sample b v =
      let c = b.config in
      let e = b.next_exponential_delay in
      let span = min (saturate (e + c.jitter)) c.maximum_delay - (e - c.jitter) in
      let drawn = (sample b.jitter_source span).0 in
      let (near, far, capped) =
        drawn_between e c.jitter c.maximum_delay drawn v.at_most v.config.representable in
      (
        record {
          config = v.config;
          at_least = omega (arith, v.config.representable, v.config.ordered);
          at_most = omega arith;
        },
        near,
        far,
        capped,
        omega (arith, v.config.representable),
      )

  -- From a valid state `next_delay` leaves a valid one, whatever jitter is drawn; the delay lies
  -- within the jitter of the exponential delay and never above the maximum; the next exponential
  -- delay is doubled, up to the maximum.
  pub next_delay_bounds :
      (sample : J → ℕ → ℕ × J) (now : ℕ) (b : Backoff J)
      → IsValid b
      → Delayed b.config (exponential now b) (next_delay sample now b)
  next_delay_bounds sample now b v = rw (next_delay-settle sample now b) (
      subst (λ c. Delayed c (exponential now b) (delay_of sample (settle now b)))
        (settle-config now b)
        (subst (λ e. Delayed (settle now b).config e (delay_of sample (settle now b)))
          (settle-exponential now b)
          (delay_of_bounds sample (settle now b) (settle-IsValid now v))))

  -- Of configurations whose maximum a `Duration` can have, exactly those are accepted whose initial
  -- delay is positive and at most the maximum and whose reset time is positive.
  with_sources_iff :
      (c : BackoffConfig) (j : J)
      → c.maximum_delay ≤ max_duration
      → (with_sources c j ≢ err invalid_configuration) ↔ IsConfig c
  unfolding with_sources
  with_sources_iff c j h = ground arith

  -- A state that is created of a configuration whose maximum a `Duration` can have is valid,
  -- keeps the configuration and begins at the initial delay.
  with_sources-IsValid :
      (c : BackoffConfig) (j : J) (b : Backoff J)
      → c.maximum_delay ≤ max_duration
      → with_sources c j ≡ ok b
      → IsValid b × (b.config ≡ c) × (b.next_exponential_delay ≡ c.initial_delay)
  unfolding with_sources
  with_sources-IsValid c j b h e = ground arith
