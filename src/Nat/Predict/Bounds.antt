-- ===== src/Nat/Predict/Bounds.antt =====
-- What sequential evidence says of the observations, and what the predicted ports are.
use rustgo.Prelude.{
  ℕ, zero, suc, ◌+◌, ◌^◌, ◌≤◌, ◌<◌, ◌≡◌, ◌≢◌, ◌⊎◌, refl, min, Option, none, some, true, false, List,
  [], ◌∷◌, ◌++◌, length, length-append, ◌==◌, Bool-cases, inl, inr, arith,
}
use rustgo.Nat.Integer.{
  ℤ, pos, negsuc, ◌+ℤ◌, scale, difference, i16_try_from, u16_try_from, same_integer,
}
use rustgo.Nat.Observation.{
  Observation, sequential, port, analyze_mappings, sequential_delta, all_differ_by,
  signed_port_delta, delta_is, evidence_of,
}
use rustgo.Nat.Predict.{
  PredictionPolicy, max_predicted_ports, contains, last_observation, port_at, predict,
  predicted_ports,
}

-- Every mapped port is the one before it plus the delta.
abbrev pub Stepped : ℤ → List Observation → Type 0
Stepped delta [] = Unit
Stepped delta (first ∷ []) = Unit
Stepped delta (first ∷ second ∷ rest) =
    (pos (port second.mapped_address) ≡ pos (port first.mapped_address) +ℤ delta)
    × Stepped delta (second ∷ rest)

delta_is-step :
    (p n : ℕ) (delta : ℤ) → delta_is (signed_port_delta p n) delta ≡ true → pos n ≡ pos p +ℤ delta
unfolding signed_port_delta difference i16_try_from same_integer ◌+ℤ◌
delta_is-step p n (pos d) h = ground arith
delta_is-step p n (negsuc d) h = ground arith

all_differ_by-Stepped :
    (delta : ℤ) (os : List Observation) → all_differ_by delta os ≡ true → Stepped delta os
unfolding all_differ_by
all_differ_by-Stepped delta [] h = tt
all_differ_by-Stepped delta (first ∷ []) h = tt
all_differ_by-Stepped delta (first ∷ second ∷ rest) h = (
  delta_is-step (port first.mapped_address) (port second.mapped_address) delta (ground arith),
  all_differ_by-Stepped delta (second ∷ rest) (ground arith),
)

sequential_delta-Stepped :
    (os : List Observation) (delta : ℤ)
    → sequential_delta os ≡ some delta
    → (3 ≤ length os) × (delta ≢ pos 0) × Stepped delta os
unfolding sequential_delta
sequential_delta-Stepped [] delta h = cc
sequential_delta-Stepped (first ∷ []) delta h = cc
sequential_delta-Stepped (first ∷ second ∷ rest) delta h =
    ground (arith, all_differ_by-Stepped delta (first ∷ second ∷ rest))

-- Mappings are called sequential only if there are three or more, each of which has the port of the
-- one before it plus the same delta, which is not 0.
pub analyze_mappings-Stepped :
    (os : List Observation) (delta : ℤ)
    → analyze_mappings os ≡ sequential delta
    → (3 ≤ length os) × (delta ≢ pos 0) × Stepped delta os
unfolding analyze_mappings
analyze_mappings-Stepped os delta h =
    let found : evidence_of (sequential_delta os) ≡ sequential delta = ground arith in
    sequential_delta-Stepped os delta (ground arith)

-- A port that is predicted: a port number, at most so many deltas past the last one.
abbrev pub Predicted : ℕ → ℤ → ℕ → ℕ → Type 0
Predicted last delta n p =
    (0 < p) × (p < 2 ^ 16) × ((k : ℕ) × (1 ≤ k) × (k ≤ n) × (pos last +ℤ scale delta k ≡ pos p))

-- The ports of a list are predicted, and no two are the same.
abbrev pub AllPredicted : ℕ → ℤ → ℕ → List ℕ → Type 0
AllPredicted last delta n [] = Unit
AllPredicted last delta n (p ∷ ps) =
    Predicted last delta n p × (contains ps p ≡ false) × AllPredicted last delta n ps

contains-append :
    (ps : List ℕ) (p q : ℕ) → contains ps p ≡ false → q ≢ p → contains (ps ++ q ∷ []) p ≡ false
contains-append [] p q h ne = ground arith
contains-append (x ∷ ps) p q h ne =
    let rest : contains (ps ++ q ∷ []) p ≡ false = contains-append ps p q (ground arith) ne in
    ground arith

AllPredicted-append :
    (last : ℕ) (delta : ℤ) (n m : ℕ) (ps : List ℕ) (q : ℕ)
    → n ≤ m
    → AllPredicted last delta n ps
    → Predicted last delta m q
    → contains ps q ≡ false
    → AllPredicted last delta m (ps ++ q ∷ [])
AllPredicted-append last delta n m [] q le all new_one h = (new_one, refl, tt)
AllPredicted-append last delta n m (p ∷ ps) q le ((low, high, (k, k1, kn, e)), fresh, all) new_one
      h =
    (
      (low, high, (k, k1, omega arith, e)),
      contains-append ps p q fresh (ground arith),
      AllPredicted-append last delta n m ps q le all new_one (ground arith),
    )

AllPredicted-weaken :
    (last : ℕ) (delta : ℤ) (n m : ℕ) (ps : List ℕ)
    → n ≤ m
    → AllPredicted last delta n ps
    → AllPredicted last delta m ps
AllPredicted-weaken last delta n m [] le all = tt
AllPredicted-weaken last delta n m (p ∷ ps) le ((low, high, (k, k1, kn, e)), fresh, all) =
    ((low, high, (k, k1, omega arith, e)), fresh, AllPredicted-weaken last delta n m ps le all)

u16_try_from-some : (z : ℤ) (p : ℕ) → u16_try_from z ≡ some p → (z ≡ pos p) × (p < 2 ^ 16)
unfolding u16_try_from
u16_try_from-some (pos n) p h = ground arith
u16_try_from-some (negsuc n) p h = cc

port_at-Predicted :
    (last : ℕ) (delta : ℤ) (n p : ℕ)
    → port_at last delta (suc n) ≡ some p
    → (p == 0) ≡ false
    → Predicted last delta (suc n) p
unfolding port_at
port_at-Predicted last delta n p h ne =
    let (e, high) = u16_try_from-some (pos last +ℤ scale delta (suc n)) p h in
    (ground arith, high, (suc n, omega arith, omega arith, e))

none_or_some : (o : Option ℕ) → (o ≡ none) ⊎ ((p : ℕ) × (o ≡ some p))
none_or_some none = inl refl
none_or_some (some p) = inr (p, refl)

predict-AllPredicted :
    (turns last : ℕ) (delta : ℤ) (done n : ℕ) (ports : List ℕ)
    → done + turns ≤ n
    → AllPredicted last delta done ports
    → length ports ≤ done
    → AllPredicted last delta n (predict turns last delta (suc done) ports)
      × (length (predict turns last delta (suc done) ports) ≤ n)
unfolding predict
predict-AllPredicted zero last delta done n ports le all len =
    (AllPredicted-weaken last delta done n ports (omega arith) all, omega arith)
predict-AllPredicted (suc turns) last delta done n ports le all len =
    let kept : AllPredicted last delta n ports × (length ports ≤ n) =
      (AllPredicted-weaken last delta done n ports (omega arith) all, omega arith) in
    elim (none_or_some (port_at last delta (suc done))) [
      | inl over ↦ rw (predict, over) kept
      | inr (p, found) ↦ elim (Bool-cases (p == 0)) [
        | inl is_zero ↦ rw (predict, found, is_zero) kept
        | inr nonzero ↦ elim (Bool-cases (contains ports p)) [
          | inl known ↦
              rw (predict, found, nonzero, known)
                (predict-AllPredicted turns last delta (suc done) n ports (omega arith)
                  (AllPredicted-weaken last delta done (suc done) ports (omega arith) all)
                  (omega arith))
          | inr fresh ↦
              rw (predict, found, nonzero, fresh)
                (predict-AllPredicted turns last delta (suc done) n (ports ++ p ∷ []) (omega arith)
                  (AllPredicted-append last delta done (suc done) ports p (omega arith) all
                    (port_at-Predicted last delta done p found nonzero) fresh)
                  (omega (arith, length-append ports (p ∷ []))))
        ]
      ]
    ]

-- Of sequential mappings at most as many ports are predicted as the window asks for, and at most
-- sixteen. They are port numbers other than 0, no two of them are the same, and each lies a whole
-- number of deltas past the last mapped port, a number from 1 to the bound on their count.
pub predicted_ports-AllPredicted :
    (os : List Observation) (policy : PredictionPolicy) (delta : ℤ) (last : Observation)
    → analyze_mappings os ≡ sequential delta
    → last_observation os ≡ some last
    → let n = min policy.requested_window max_predicted_ports in
      AllPredicted (port last.mapped_address) delta n (predicted_ports os policy)
      × (length (predicted_ports os policy) ≤ n)
unfolding predicted_ports
predicted_ports-AllPredicted os policy delta last h e =
    let n = min policy.requested_window max_predicted_ports in
    rw (predicted_ports, h, e)
      (predict-AllPredicted n (port last.mapped_address) delta 0 n [] (omega arith) tt
        (omega arith))
