-- ===== src/Transport/Backoff/Stability.antt =====
-- Growth over failed attempts, and the reset after a stable connection.
use native.Mathlib.Nat.{pow-suc, one-le-pow, mul-le-mul_right}
use rustgo.Prelude.{
  ℕ, suc, ◌-◌, ◌*◌, ◌^◌, ◌≤◌, ◌≡◌, refl, subst, min, false, none, List, [], ◌∷◌, length, leb,
  Bool-cases, inl, inr, arith, if◌then◌else◌, ◌∙◌,
}
use rustgo.Transport.Backoff.{Backoff, mark_connected, mark_disconnected, settle, next_delay}
use rustgo.Transport.Backoff.Bounds.{IsValid, Delayed, exponential, next_delay_bounds}

capped : (p e m : ℕ) → 1 ≤ p → min (p * min (2 * e) m) m ≡ min (p * 2 * e) m
capped p e m h = elim (Bool-cases (leb (2 * e) m)) [
  | inl low ↦ let same : min (2 * e) m ≡ 2 * e = ground arith in rw same (omega arith)
  | inr high ↦
      let same : min (2 * e) m ≡ m = ground arith in
      let above : 1 * m ≤ p * m = mul-le-mul_right m h in
      let beyond : 1 * (2 * e) ≤ p * (2 * e) = mul-le-mul_right (2 * e) h in
      let past : m ≤ 2 * e = ground arith in rw same (omega arith)
]

doubles_capped : (n e m : ℕ) → min (2 ^ n * min (2 * e) m) m ≡ min (2 ^ suc n * e) m
doubles_capped n e m = rw (pow-suc 2 n) (capped (2 ^ n) e m (one-le-pow n 2 (omega arith)))

module _ {J : Type 0} (sample : J → ℕ → ℕ × J) where
  -- Attempts at the times of the list, with no connection between them.
  abbrev pub attempts : List ℕ → Backoff J → Backoff J
  attempts [] b = b
  attempts (now ∷ later) b = attempts later (next_delay sample now b).1

  next_delay_marks :
      (now : ℕ) (b : Backoff J)
      → let b' = (next_delay sample now b).1 in
        (b'.config ≡ b.config)
        × (b'.connected_since ≡ none)
        × (b'.completed_connection_was_stable ≡ false)
  unfolding next_delay settle
  next_delay_marks now b = ground arith

  -- From a valid state in which no connection is open and none has been stable, the exponential
  -- delay after any number of attempts is the present one doubled as often, up to the maximum.
  attempts_double :
      (times : List ℕ) (b : Backoff J)
      → IsValid b
      → b.connected_since ≡ none
      → b.completed_connection_was_stable ≡ false
      → (attempts times b).next_exponential_delay
        ≡ min (2 ^ length times * b.next_exponential_delay) b.config.maximum_delay
  attempts_double [] b v idle unstable = omega (arith, v.at_most)
  attempts_double (now ∷ later) b v idle unstable =
      let b' = (next_delay sample now b).1 in
      let (same, idle', unstable') = next_delay_marks now b in
      let (v', _, _, _, doubled) = next_delay_bounds sample now b v in
      let e = b.next_exponential_delay in
      let now_e : exponential now b ≡ e = rw (idle, unstable) in
      attempts_double later b' v' idle' unstable'
      ∙ (rw (same, doubled, now_e) (doubles_capped (length later) e b.config.maximum_delay))

  marked-exponential :
      (begin finish now : ℕ) (b : Backoff J)
      → exponential now (mark_disconnected finish (mark_connected begin b)) ≡ (
          if leb b.config.stable_connection_reset_after (finish - begin)
          then b.config.initial_delay
          else b.next_exponential_delay)
  unfolding mark_disconnected mark_connected
  marked-exponential begin finish now b = ground arith

  marked-IsValid :
      (begin finish : ℕ) (b : Backoff J)
      → IsValid b
      → IsValid (mark_disconnected finish (mark_connected begin b))
  unfolding mark_disconnected mark_connected
  marked-IsValid begin finish b v = ground arith

  marked-config :
      (begin finish : ℕ) (b : Backoff J)
      → (mark_disconnected finish (mark_connected begin b)).config ≡ b.config
  unfolding mark_disconnected mark_connected
  marked-config begin finish b = refl

  -- Of a valid state: an attempt after a connection whose begin and end were marked uses the
  -- initial delay if the connection lasted for the reset time, and the exponential delay as it
  -- stood if it did not. What passes between its end and the attempt does not count.
  next_delay-mark_disconnected :
      (begin finish now : ℕ) (b : Backoff J)
      → IsValid b
      → Delayed b.config
          (if leb b.config.stable_connection_reset_after (finish - begin)
            then b.config.initial_delay
            else b.next_exponential_delay)
          (next_delay sample now (mark_disconnected finish (mark_connected begin b)))
  next_delay-mark_disconnected begin finish now b v =
      let after = mark_disconnected finish (mark_connected begin b) in
      subst (λ e. Delayed b.config e (next_delay sample now after))
        (marked-exponential begin finish now b)
        (subst (λ c. Delayed c (exponential now after) (next_delay sample now after))
          (marked-config begin finish b)
          (next_delay_bounds sample now after (marked-IsValid begin finish b v)))
