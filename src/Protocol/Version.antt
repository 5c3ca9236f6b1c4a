-- ===== src/Protocol/Version.antt =====
-- crates/rustgo-protocol/src/version.rs: protocol versions, their negotiation, and the features
-- that a negotiated version has. A version number is a u16.
use rustgo.Prelude.{
  ℕ, ◌≤◌, ◌≡◌, ◌↔◌, ◌⊎◌, Bool, ◌&&◌, arith, ltb, leb, ◌==◌, if◌then◌else◌, Result, ok, err,
}

-- `ProtocolErrorCode` of message.rs is a u16; the constants that the modelled code names.
abbrev pub ProtocolErrorCode : Type 0
ProtocolErrorCode = ℕ

abbrev pub unsupported_version : ProtocolErrorCode
unsupported_version = 1

abbrev pub invalid_state : ProtocolErrorCode
invalid_state = 5

abbrev pub unknown_session : ProtocolErrorCode
unknown_session = 7

pub record ProtocolVersion : Type 0 where
  pub major : ℕ
  pub minor : ℕ

abbrev pub new : ℕ → ℕ → ProtocolVersion
new major minor = record { major = major; minor = minor }

abbrev pub v0_3 : ProtocolVersion
v0_3 = new 1 2

abbrev pub v0_4 : ProtocolVersion
v0_4 = new 1 3

abbrev pub v0_5 : ProtocolVersion
v0_5 = new 1 4

abbrev pub v0_6 : ProtocolVersion
v0_6 = new 1 5

abbrev pub supported : ProtocolVersion
supported = v0_6

min_u16 : ℕ → ℕ → ℕ
min_u16 left right = if ltb left right then left else right

unfoldable pub negotiate :
    ProtocolVersion → ProtocolVersion → Result ProtocolErrorCode ProtocolVersion
unfolding min_u16
negotiate self peer =
    if self.major == peer.major
    then ok (new self.major (min_u16 self.minor peer.minor))
    else err unsupported_version

unfoldable pub supports_managed_configuration : ProtocolVersion → Bool
supports_managed_configuration v = v.major == v0_4.major && leb v0_4.minor v.minor

unfoldable pub supports_client_profile : ProtocolVersion → Bool
supports_client_profile v = v.major == v0_6.major && leb v0_6.minor v.minor

unfoldable pub supports_managed_editing : ProtocolVersion → Bool
supports_managed_editing v = v.major == v0_5.major && leb v0_5.minor v.minor

unfoldable pub supports_telemetry : ProtocolVersion → Bool
supports_telemetry v = v.major == v0_3.major && leb v0_3.minor v.minor

-- Negotiation is symmetric: both ends compute the same version, or the same error.
negotiate_comm : (a b : ProtocolVersion) → negotiate a b ≡ negotiate b a
unfolding negotiate
negotiate_comm a b = ground arith

-- A version is negotiated exactly if it has the major version of both ends and the lower of their
-- minor versions.
pub negotiate_meet :
    (a b v : ProtocolVersion)
    → (negotiate a b ≡ ok v) ↔ (
        (v.major ≡ a.major)
        × (v.major ≡ b.major)
        × (v.minor ≤ a.minor)
        × (v.minor ≤ b.minor)
        × ((v.minor ≡ a.minor) ⊎ (v.minor ≡ b.minor)))
unfolding negotiate
negotiate_meet a b v = ground arith

-- A feature is enabled by negotiation exactly when both ends support it.
negotiate-features :
    (a b v : ProtocolVersion)
    → negotiate a b ≡ ok v
    → (supports_telemetry v ≡ (supports_telemetry a && supports_telemetry b))
      × (supports_managed_configuration v
          ≡ (supports_managed_configuration a && supports_managed_configuration b))
      × (supports_managed_editing v ≡ (supports_managed_editing a && supports_managed_editing b))
      × (supports_client_profile v ≡ (supports_client_profile a && supports_client_profile b))
unfolding negotiate supports_telemetry supports_managed_configuration supports_managed_editing
    supports_client_profile
negotiate-features a b v h = (ground arith, ground arith, ground arith, ground arith)
