-- ===== src/Nat/Observation.antt =====
-- crates/rustgo-nat/src/observation.rs, and `is_usable_address` of candidate.rs with the tests of
-- `Ipv4Addr` and `Ipv6Addr` that it calls, on the octets.
use rustgo.Prelude.{
  ℕ, ◌/◌, Option, none, some, Bool, true, false, not, ◌&&◌, ◌||◌, List, [], ◌∷◌, ◌++◌, length,
  get_or, replicate, ltb, leb, ◌==◌, if◌then◌else◌,
}
use rustgo.Prelude.Bytes.{eq_bytes}
use rustgo.Protocol.Payload.Tunnel.{SocketAddress, v4, v6}
use rustgo.Nat.Integer.{ℤ, pos, difference, i16_try_from, same_integer}

pub record Observation : Type 0 where
  pub destination : SocketAddress
  pub mapped_address : SocketAddress

pub data MappingEvidence : Type 0 where
  stable : MappingEvidence
  destination_dependent : MappingEvidence
  sequential : (delta : ℤ) → MappingEvidence
  uncertain : MappingEvidence

unfoldable pub is_usable_address : SocketAddress → Bool
unfolding eq_bytes
is_usable_address (v4 octets port) =
    let first = get_or octets 0 0 in
    not (port == 0)
    && not (eq_bytes octets (replicate 4 0))
    && not (leb 224 first && leb first 239)
    && not (eq_bytes octets (replicate 4 255))
    && not (first == 127)
    && not (first == 169 && get_or octets 1 0 == 254)
is_usable_address (v6 octets port) =
    let first = get_or octets 0 0 in
    not (port == 0)
    && not (eq_bytes octets (replicate 16 0))
    && not (first == 255)
    && not (eq_bytes octets (replicate 15 0 ++ 1 ∷ []))
    && not (first == 254 && get_or octets 1 0 / 64 == 2)

abbrev pub port : SocketAddress → ℕ
port (v4 _ p) = p
port (v6 _ p) = p

unfoldable pub same_host : SocketAddress → SocketAddress → Bool
unfolding eq_bytes
same_host (v4 left _) (v4 right _) = eq_bytes left right
same_host (v6 left _) (v6 right _) = eq_bytes left right
same_host _ _ = false

-- The derived equality of `SocketAddress`.
unfoldable pub same_address : SocketAddress → SocketAddress → Bool
unfolding same_host
same_address left right = same_host left right && port left == port right

unfoldable pub signed_port_delta : ℕ → ℕ → Option ℤ
unfolding difference i16_try_from
signed_port_delta previous next = i16_try_from (difference next previous)

abbrev pub all_of : (Observation → Bool) → List Observation → Bool
all_of test [] = true
all_of test (o ∷ os) = let rest = all_of test os in test o && rest

-- `observations.iter().all(|observation| same(observation, &observations[0]))`
abbrev pub all_as_first : (Observation → Observation → Bool) → List Observation → Bool
all_as_first same [] = true
all_as_first same (first ∷ rest) = all_of (λ o. same o first) (first ∷ rest)

unfoldable pub all_share_destination_host : List Observation → Bool
unfolding same_host
all_share_destination_host observations =
    all_as_first (λ o first. same_host o.destination first.destination) observations

unfoldable pub all_share_mapped_host : List Observation → Bool
unfolding same_host
all_share_mapped_host observations =
    all_as_first (λ o first. same_host o.mapped_address first.mapped_address) observations

-- `mappings.iter().find(|(known_port, _)| *known_port == destination_port)`
abbrev pub find_mapping : List (ℕ × SocketAddress) → ℕ → Option SocketAddress
find_mapping [] p = none
find_mapping ((known_port, mapped) ∷ mappings) p =
    let rest = find_mapping mappings p in if known_port == p then some mapped else rest

-- The loop of `destination_port_dependent`; `none` is its early return.
unfoldable pub collect_mappings :
    List (ℕ × SocketAddress) → List Observation → Option (List (ℕ × SocketAddress))
unfolding same_address
collect_mappings mappings [] = some mappings
collect_mappings mappings (o ∷ os) =
    let known = collect_mappings mappings os in
    let added = collect_mappings (mappings ++ (port o.destination, o.mapped_address) ∷ []) os in
    elim (find_mapping mappings (port o.destination)) [
      | none ↦ added
      | some mapped ↦ if not (same_address mapped o.mapped_address) then none else known
    ]

-- `mappings.windows(2).any(|pair| pair[0].1 != pair[1].1)`
unfoldable pub any_differ : List (ℕ × SocketAddress) → Bool
unfolding same_address
any_differ [] = false
any_differ (first ∷ []) = false
any_differ (first ∷ second ∷ rest) =
    let later = any_differ (second ∷ rest) in not (same_address first.1 second.1) || later

unfoldable pub destination_port_dependent : List Observation → Bool
unfolding collect_mappings any_differ
destination_port_dependent observations = elim (collect_mappings [] observations) [
  | none ↦ false
  | some mappings ↦ leb 2 (length mappings) && any_differ mappings
]

abbrev pub delta_is : Option ℤ → ℤ → Bool
unfolding same_integer
delta_is none delta = false
delta_is (some d) delta = same_integer d delta

-- `windows(2)`: every pair differs by the delta.
unfoldable pub all_differ_by : ℤ → List Observation → Bool
unfolding signed_port_delta same_integer
all_differ_by delta [] = true
all_differ_by delta (first ∷ []) = true
all_differ_by delta (first ∷ second ∷ rest) =
    let later = all_differ_by delta (second ∷ rest) in
    delta_is (signed_port_delta (port first.mapped_address) (port second.mapped_address)) delta
    && later

unfoldable pub sequential_delta : List Observation → Option ℤ
unfolding signed_port_delta all_share_mapped_host all_differ_by same_integer
sequential_delta [] = none
sequential_delta (first ∷ []) = none
sequential_delta (first ∷ second ∷ rest) =
    let observations = first ∷ second ∷ rest in
    if ltb (length observations) 3 || not (all_share_mapped_host observations)
    then none
    else elim (signed_port_delta (port first.mapped_address) (port second.mapped_address)) [
      | none ↦ none
      | some delta ↦
          if same_integer delta (pos 0) || not (all_differ_by delta observations)
          then none
          else some delta
    ]

abbrev pub evidence_of : Option ℤ → MappingEvidence
evidence_of none = uncertain
evidence_of (some delta) = sequential delta

unfoldable pub analyze_mappings : List Observation → MappingEvidence
unfolding is_usable_address all_share_destination_host all_share_mapped_host same_address
    destination_port_dependent sequential_delta
analyze_mappings observations =
    if ltb (length observations) 2
      || not (
          all_of (λ o. is_usable_address o.destination && is_usable_address o.mapped_address)
            observations)
      || not (all_share_destination_host observations)
      || not (all_share_mapped_host observations)
    then uncertain
    else if all_as_first (λ o first. same_address o.mapped_address first.mapped_address)
        observations
    then stable
    else if destination_port_dependent observations
    then destination_dependent
    else evidence_of (sequential_delta observations)
