-- ===== src/Protocol/Datagram.antt =====
-- crates/rustgo-protocol/src/frame.rs: the binary layout of a UDP datagram, which is written by
-- hand: tunnel (4 bytes), session (8), address family (1), address (16), port (2), then the data.
pub mod RoundTrip
pub mod Canonical
mod Tests
use rustgo.Prelude.{
  ℕ, ◌+◌, ◌<◌, ◌≤◌, ◌≡◌, ◌^◌, Bool, ◌&&◌, ◌||◌, List, [], ◌∷◌, ◌++◌, length, drop, get_or,
  replicate, ltb, leb, ◌==◌, if◌then◌else◌, Result, ok, err, ◌>>=◌, ◌>>◌, guard, not,
}
use rustgo.Prelude.Bytes.{Bytes, AllBytes, from_be, eq_bytes, slice}
use rustgo.Protocol.Limits.{udp_metadata_len, max_udp_payload_bytes, bounded}
use rustgo.Protocol.MessageId.{MessageId, udp_datagram}
use rustgo.Protocol.Payload.Tunnel.{SocketAddress, v4, v6, UdpDatagram}
use rustgo.Protocol.FrameError.{FrameError, malformed_payload, message_payload_too_large}
use rustgo.Protocol.Externals.{BufMut}

-- The address family, the address, padded to 16 bytes, and the port.
put_source : BufMut → SocketAddress → Bytes
put_source buf (v4 octets port) = 4 ∷ (octets ++ (replicate 12 0 ++ buf.put_u16 port))
put_source buf (v6 octets port) = 6 ∷ (octets ++ buf.put_u16 port)

unfoldable pub encode_udp : BufMut → UdpDatagram → Result FrameError Bytes
unfolding put_source
encode_udp buf datagram =
    if datagram.tunnel_id == 0 || datagram.session_id == 0
    then err (malformed_payload udp_datagram)
    else ok (
        buf.put_u32 datagram.tunnel_id
        ++ (buf.put_u64 datagram.session_id
            ++ (put_source buf datagram.source ++ datagram.payload)))

-- The `match payload[12]`: an IPv4 address must be padded with zeros.
decode_source : MessageId → ℕ → Bytes → ℕ → Result FrameError SocketAddress
decode_source message family address port =
    if family == 4 && eq_bytes (drop 4 address) (replicate 12 0)
    then ok (v4 (slice 0 4 address) port)
    else if family == 6
    then ok (v6 address port)
    else err (malformed_payload message)

unfoldable pub decode_udp : MessageId → Bytes → Result FrameError UdpDatagram
unfolding decode_source
decode_udp message payload = do
  guard (leb udp_metadata_len (length payload)) (malformed_payload message)
  let raw = drop udp_metadata_len payload
  let too_large =
      message_payload_too_large message (length payload) (udp_metadata_len + max_udp_payload_bytes)
  guard (leb (length raw) max_udp_payload_bytes) too_large
  let tunnel_id = from_be (slice 0 4 payload)
  let session_id = from_be (slice 4 12 payload)
  guard (not (tunnel_id == 0 || session_id == 0)) (malformed_payload message)
  let address = slice 13 29 payload
  let port = from_be (slice 29 31 payload)
  source ← decode_source message (get_or payload 12 0) address port
  guard (bounded max_udp_payload_bytes raw) too_large
  ok (record { tunnel_id = tunnel_id; session_id = session_id; source = source; payload = raw })

-- What the types of a socket address and of a datagram guarantee: the widths of the numbers, the
-- lengths of the arrays, and the bound of the data.
abbrev pub IsSocketAddress : SocketAddress → Type 0
IsSocketAddress (v4 octets port) = (length octets ≡ 4) × AllBytes octets × (port < 2 ^ 16)
IsSocketAddress (v6 octets port) = (length octets ≡ 16) × AllBytes octets × (port < 2 ^ 16)

pub record IsDatagram (d : UdpDatagram) : Type 0 where
  pub tunnel_id : d.tunnel_id < 2 ^ 32
  pub session_id : d.session_id < 2 ^ 64
  pub source : IsSocketAddress d.source
  pub payload : length d.payload ≤ max_udp_payload_bytes
  pub bytes : AllBytes d.payload
