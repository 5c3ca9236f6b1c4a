-- ===== src/Nat/Predict/Tests.antt =====
-- The theorems on mappings and predicted ports, applied to three observations two ports apart.
use rustgo.Prelude.{ℕ, ◌≤◌, ◌≡◌, ◌≢◌, refl, min, List, [], ◌∷◌, length}
use rustgo.Protocol.Payload.Tunnel.{SocketAddress, v4}
use rustgo.Nat.Integer.{pos}
use rustgo.Nat.Observation.{Observation, sequential, analyze_mappings, port}
use rustgo.Nat.Predict.{PredictionPolicy, max_predicted_ports, predicted_ports}
use rustgo.Nat.Predict.Bounds.{
  Stepped, AllPredicted, analyze_mappings-Stepped, predicted_ports-AllPredicted,
}

abbrev server : SocketAddress
server = v4 (8 ∷ 8 ∷ 8 ∷ 8 ∷ []) 3478

abbrev seen_at : ℕ → Observation
seen_at p = record { destination = server; mapped_address = v4 (9 ∷ 9 ∷ 9 ∷ 9 ∷ []) p }

abbrev observed : List Observation
observed = seen_at 5000 ∷ seen_at 5002 ∷ seen_at 5004 ∷ []

abbrev policy : PredictionPolicy
policy = record { requested_window = 3 }

two_apart : analyze_mappings observed ≡ sequential (pos 2)
unfolding analyze_mappings
two_apart = refl

analyze_mappings-Stepped_example :
    (3 ≤ length observed) × (pos 2 ≢ pos 0) × Stepped (pos 2) observed
analyze_mappings-Stepped_example = analyze_mappings-Stepped observed (pos 2) two_apart

predicted_ports-AllPredicted_example :
    let n = min policy.requested_window max_predicted_ports in
    AllPredicted (port (seen_at 5004).mapped_address) (pos 2) n (predicted_ports observed policy)
    × (length (predicted_ports observed policy) ≤ n)
predicted_ports-AllPredicted_example =
    predicted_ports-AllPredicted observed policy (pos 2) (seen_at 5004) two_apart refl
