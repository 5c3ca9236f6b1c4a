-- ===== src/Server/Udp/Address.antt =====
-- crates/rustgos/src/udp.rs: the addresses of a relay. `SocketAddr` is the standard library's type, whose
-- address of version 6 has a flow label and a scope; the `SocketAddress` of a frame has neither.
use rustgo.Prelude.{
  ℕ, Bool, true, false, ◌&&◌, Option, some, refl, [], ◌∷◌, take, drop, ◌==◌, if◌then◌else◌, ◌≡◌,
  ◌↔◌, inl, inr, Bool-cases, arith,
}
use rustgo.Prelude.Bytes.{Bytes, eq_bytes, eq_bytes_iff}
use rustgo.Protocol.Payload.Tunnel.{SocketAddress}

pub data SocketAddr : Type 0 where
  v4 : (octets : Bytes) → (port : ℕ) → SocketAddr
  v6 : (octets : Bytes) → (port flowinfo scope_id : ℕ) → SocketAddr

-- The derived equality of `SocketAddr`, which compares every field.
unfoldable pub same_address : SocketAddr → SocketAddr → Bool
unfolding eq_bytes
same_address (v4 a p) (v4 b q) = eq_bytes a b && p == q
same_address (v6 a p f s) (v6 b q g t) = eq_bytes a b && p == q && f == g && s == t
same_address _ _ = false

pub same_address_iff : (a b : SocketAddr) → (same_address a b ≡ true) ↔ (a ≡ b)
unfolding same_address
same_address_iff (v4 a p) (v4 b q) = ground (arith, eq_bytes_iff a b)
same_address_iff (v6 a p f s) (v6 b q g t) = ground (arith, eq_bytes_iff a b)
same_address_iff (v4 a p) (v6 b q g t) = ground arith
same_address_iff (v6 a p f s) (v4 b q) = ground arith

-- The first twelve octets of an address of version 4 that is mapped into version 6.
abbrev mapped : Bytes
mapped = 0 ∷ 0 ∷ 0 ∷ 0 ∷ 0 ∷ 0 ∷ 0 ∷ 0 ∷ 0 ∷ 0 ∷ 255 ∷ 255 ∷ []

unfoldable pub canonical_socket_addr : SocketAddr → SocketAddr
unfolding eq_bytes
canonical_socket_addr (v6 octets port flowinfo scope_id) =
    if eq_bytes (take 12 octets) mapped
    then v4 (drop 12 octets) port
    else v6 octets port flowinfo scope_id
canonical_socket_addr (v4 octets port) = v4 octets port

-- The address of a frame, of an address that is canonical.
abbrev wire_of : SocketAddr → SocketAddress
wire_of (v4 octets port) = SocketAddress.v4 octets port
wire_of (v6 octets port flowinfo scope_id) = SocketAddress.v6 octets port

unfoldable pub wire_socket_addr : SocketAddr → SocketAddress
unfolding canonical_socket_addr
wire_socket_addr address = wire_of (canonical_socket_addr address)

-- `SocketAddr::new`, which leaves the flow label and the scope at 0.
abbrev address_of : SocketAddress → SocketAddr
address_of (SocketAddress.v4 octets port) = v4 octets port
address_of (SocketAddress.v6 octets port) = v6 octets port 0 0

unfoldable pub socket_addr_from_wire : SocketAddress → Option SocketAddr
unfolding canonical_socket_addr
socket_addr_from_wire address = some (canonical_socket_addr (address_of address))

-- An address without its flow label and its scope.
abbrev pub unscoped : SocketAddr → SocketAddr
unscoped (v4 octets port) = v4 octets port
unscoped (v6 octets port flowinfo scope_id) = v6 octets port 0 0

-- What comes back over the wire is the canonical address without its flow label and its scope.
pub socket_addr_from_wire-wire_socket_addr :
    (a : SocketAddr)
    → socket_addr_from_wire (wire_socket_addr a) ≡ some (unscoped (canonical_socket_addr a))
unfolding socket_addr_from_wire wire_socket_addr canonical_socket_addr
socket_addr_from_wire-wire_socket_addr (v4 octets port) = refl
socket_addr_from_wire-wire_socket_addr (v6 octets port flowinfo scope_id) =
    elim (Bool-cases (eq_bytes (take 12 octets) mapped)) [
      | inl is ↦ rw is refl
      | inr not ↦ rw (not, not) refl
    ]
