-- ===== src/Nat/Predict.antt =====
-- crates/rustgo-nat/src/predict.rs: the ports that are predicted of sequential mappings.
pub mod Bounds
mod Tests
use rustgo.Prelude.{
  ℕ, zero, suc, ◌+◌, ◌*◌, min, Option, none, some, Bool, true, false, ◌||◌, List, [], ◌∷◌, ◌++◌,
  ◌==◌, if◌then◌else◌,
}
use rustgo.Nat.Integer.{ℤ, pos, ◌+ℤ◌, scale, u16_try_from}
use rustgo.Nat.Observation.{Observation, MappingEvidence, sequential, analyze_mappings, port}

abbrev pub max_predicted_ports : ℕ
max_predicted_ports = 16

pub record PredictionPolicy : Type 0 where
  pub requested_window : ℕ

abbrev pub contains : List ℕ → ℕ → Bool
contains [] p = false
contains (q ∷ qs) p = let rest = contains qs p in q == p || rest

abbrev pub last_observation : List Observation → Option Observation
last_observation [] = none
last_observation (o ∷ []) = some o
last_observation (o ∷ p ∷ os) = last_observation (p ∷ os)

-- `u16::try_from` of the port that is predicted at an offset.
unfoldable pub port_at : ℕ → ℤ → ℕ → Option ℕ
unfolding u16_try_from ◌+ℤ◌ scale
port_at last_port delta offset = u16_try_from (pos last_port +ℤ scale delta offset)

-- The loop, with its remaining number of turns.
unfoldable pub predict : (turns : ℕ) → ℕ → ℤ → (offset : ℕ) → (ports : List ℕ) → List ℕ
predict zero last_port delta offset ports = ports
predict (suc turns) last_port delta offset ports =
    let continue = λ (port : ℕ).
      predict turns last_port delta (suc offset)
        (if contains ports port then ports else ports ++ port ∷ []) in
    elim (port_at last_port delta offset) [
      | none ↦ ports
      | some port ↦ if port == 0 then ports else continue port
    ]

unfoldable pub predicted_ports : List Observation → PredictionPolicy → List ℕ
unfolding analyze_mappings predict
predicted_ports observations policy = elim (analyze_mappings observations) [
  | sequential delta ↦ (elim (last_observation observations) [
    | none ↦ []
    | some last ↦
        predict (min policy.requested_window max_predicted_ports) (port last.mapped_address) delta 1
          []
  ])
  | _ ↦ []
]
