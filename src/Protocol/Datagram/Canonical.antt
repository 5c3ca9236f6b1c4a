-- ===== src/Protocol/Datagram/Canonical.antt =====
-- Every payload that `decode_udp` accepts is the one encoding of the datagram that it gives.
use rustgo.Prelude.{
  ℕ, ◌+◌, ◌<◌, ◌≤◌, ◌≡◌, ◌≢◌, ap, ◌∙◌, ◌^◌, true, [], ◌∷◌, ◌++◌, length, drop, take, get_or,
  replicate, leb, ◌==◌, Result, ok, not, ◌||◌, arith, length-append, take-append-drop, length-take,
  length-drop, leb→le, guard-eq-ok, >>=-eq-ok,
}
use rustgo.Prelude.Bytes.{
  Bytes, AllBytes, AllBytes-take, AllBytes-drop, from_be, from_be-lt, to_be, to_be-from_be,
  eq_bytes_iff, slice,
}
use rustgo.Protocol.Limits.{udp_metadata_len, max_udp_payload_bytes, bounded}
use rustgo.Protocol.MessageId.{MessageId}
use rustgo.Protocol.Payload.Tunnel.{SocketAddress, v4, v6, UdpDatagram}
use rustgo.Protocol.FrameError.{FrameError}
use rustgo.Protocol.Externals.{BufMut}
use rustgo.Protocol.Datagram.{encode_udp, decode_udp, decode_source, IsDatagram, IsSocketAddress}
use rustgo.Protocol.Datagram.RoundTrip.{
  joined, joined-slices, padded, family_of, port_of, encoding, encode_udp-encoding,
}

-- What an accepted payload has passed.
record Accepted (m : MessageId) (p : Bytes) (d : UdpDatagram) : Type 0 where
  long : 31 ≤ length p
  short : length (drop 31 p) ≤ max_udp_payload_bytes
  tunnel_eq : d.tunnel_id ≡ from_be (slice 0 4 p)
  session_eq : d.session_id ≡ from_be (slice 4 12 p)
  tunnel_ne : d.tunnel_id ≢ 0
  session_ne : d.session_id ≢ 0
  source_eq :
      decode_source m (get_or p 12 0) (slice 13 29 p) (from_be (slice 29 31 p)) ≡ ok d.source
  payload_eq : d.payload ≡ drop 31 p

ids_ne :
    (tunnel session : ℕ) → not (tunnel == 0 || session == 0) ≡ true → (tunnel ≢ 0) × (session ≢ 0)
ids_ne tunnel session h = ground arith

-- What equal results say of the fields.
fields-eq :
    (tunnel session : ℕ) (a : SocketAddress) (raw : Bytes) (d : UdpDatagram)
    → ◌≡◌ {A = Result FrameError UdpDatagram}
        (ok (record { tunnel_id = tunnel; session_id = session; source = a; payload = raw }))
        (ok d)
    → (d.tunnel_id ≡ tunnel) × (d.session_id ≡ session) × (d.source ≡ a) × (d.payload ≡ raw)
fields-eq tunnel session a raw d e = ground arith

decode_udp-Accepted :
    (m : MessageId) (p : Bytes) (d : UdpDatagram) → decode_udp m p ≡ ok d → Accepted m p d
unfolding decode_udp
decode_udp-Accepted m p d h =
    let raw = drop udp_metadata_len p in
    let tunnel = from_be (slice 0 4 p) in
    let session = from_be (slice 4 12 p) in
    let source = decode_source m (get_or p 12 0) (slice 13 29 p) (from_be (slice 29 31 p)) in
    let (long, h1) = guard-eq-ok (leb udp_metadata_len (length p)) _ _ h in
    let (short, h2) = guard-eq-ok (leb (length raw) max_udp_payload_bytes) _ _ h1 in
    let (ids, h3) = guard-eq-ok (not (tunnel == 0 || session == 0)) _ _ h2 in
    let (a, source_eq, h4) = >>=-eq-ok source _ h3 in
    let (bound, e) = guard-eq-ok (bounded max_udp_payload_bytes raw) _ _ h4 in
    let (tunnel_eq, session_eq, a_eq, raw_eq) = fields-eq tunnel session a raw d e in
    let (t, s) = ids_ne tunnel session ids in
    record {
      long = leb→le udp_metadata_len (length p) long;
      short = leb→le (length raw) max_udp_payload_bytes short;
      tunnel_eq = tunnel_eq;
      session_eq = session_eq;
      tunnel_ne = rw tunnel_eq t;
      session_ne = rw session_eq s;
      source_eq = rw a_eq source_eq;
      payload_eq = raw_eq;
    }

decode_source-parts :
    (m : MessageId) (family : ℕ) (address : Bytes) (port : ℕ) (a : SocketAddress)
    → decode_source m family address port ≡ ok a
    → (family_of a ≡ family) × (padded a ≡ address) × (port_of a ≡ port)
unfolding decode_source
decode_source-parts m family address port (v4 o q) h =
    let zeros : drop 4 address ≡ replicate 12 0 =
      ground (arith, eq_bytes_iff (drop 4 address) (replicate 12 0)) in
    let octets : o ≡ take 4 address = ground arith in
    (ground arith, rw (octets, ← zeros) (take-append-drop 4 address), ground arith)
decode_source-parts m family address port (v6 o q) h =
    ground (arith, take-append-drop 4 address, eq_bytes_iff (drop 4 address) (replicate 12 0))

joined_congr :
    (t t' s s' : Bytes) (f f' : ℕ) (a a' o o' r r' : Bytes)
    → t ≡ t'
    → s ≡ s'
    → f ≡ f'
    → a ≡ a'
    → o ≡ o'
    → r ≡ r'
    → joined t s f a o r ≡ joined t' s' f' a' o' r'
joined_congr t t' s s' f f' a a' o o' r r' et es ef ea eo er = cc

AllBytes-left : (xs ys : Bytes) → AllBytes (xs ++ ys) → AllBytes xs
AllBytes-left [] ys h = tt
AllBytes-left (x ∷ xs) ys h = (h.0, AllBytes-left xs ys h.1)

parts-IsSocketAddress :
    (a : SocketAddress) (address : Bytes) (port : ℕ)
    → padded a ≡ address
    → length address ≡ 16
    → AllBytes address
    → port_of a ≡ port
    → port < 65536
    → IsSocketAddress a
parts-IsSocketAddress (v4 octets q) address port e l b p h = (
  omega (arith, length-append octets (replicate 12 0), ap length e),
  AllBytes-left octets (replicate 12 0) (rw e b),
  omega arith,
)
parts-IsSocketAddress (v6 octets q) address port e l b p h = (rw e l, rw e b, omega arith)

module _ (m : MessageId) (p : Bytes) (d : UdpDatagram) (bytes : AllBytes p)
    (h : Accepted m p d) where
  slice_width : (first width : ℕ) → first + width ≤ 31 → length (take width (drop first p)) ≡ width
  slice_width first width fits =
      omega (arith, length-take width (drop first p), length-drop first p, h.long)

  slice-AllBytes : (first width : ℕ) → AllBytes (take width (drop first p))
  slice-AllBytes first width = AllBytes-take width (drop first p) (AllBytes-drop first p bytes)

  -- A number that was read from the payload is written back as the bytes it was read from.
  written_back :
      (first width n : ℕ)
      → first + width ≤ 31
      → n ≡ from_be (take width (drop first p))
      → to_be width n ≡ take width (drop first p)
  written_back first width n fits e = rw e (
      to_be-from_be width (take width (drop first p)) (slice_width first width fits)
        (slice-AllBytes first width))

  source_parts :
      (family_of d.source ≡ get_or p 12 0)
      × (padded d.source ≡ slice 13 29 p)
      × (port_of d.source ≡ from_be (slice 29 31 p))
  source_parts =
      decode_source-parts m (get_or p 12 0) (slice 13 29 p) (from_be (slice 29 31 p)) d.source
        h.source_eq

  encoding-eq : encoding d ≡ p
  encoding-eq =
      joined_congr _ (slice 0 4 p) _ (slice 4 12 p) _ (get_or p 12 0) _ (slice 13 29 p) _
        (slice 29 31 p) _ (drop 31 p) (written_back 0 4 d.tunnel_id (omega arith) h.tunnel_eq)
        (written_back 4 8 d.session_id (omega arith) h.session_eq) source_parts.0 source_parts.1
        (written_back 29 2 (port_of d.source) (omega arith) source_parts.2) h.payload_eq
      ∙ joined-slices p h.long

  slice_lt :
      (first width : ℕ) → first + width ≤ 31 → from_be (take width (drop first p)) < 256 ^ width
  slice_lt first width fits =
      rw (slice_width first width fits) at
        (from_be-lt (take width (drop first p)) (slice-AllBytes first width))

  accepted-IsDatagram : IsDatagram d
  accepted-IsDatagram = record {
    tunnel_id = rw h.tunnel_eq (slice_lt 0 4 (omega arith));
    session_id = rw h.session_eq (slice_lt 4 8 (omega arith));
    source =
        parts-IsSocketAddress d.source (slice 13 29 p) (from_be (slice 29 31 p)) source_parts.1
          (slice_width 13 16 (omega arith)) (slice-AllBytes 13 16) source_parts.2
          (slice_lt 29 2 (omega arith));
    payload = rw h.payload_eq h.short;
    bytes = rw h.payload_eq (AllBytes-drop 31 p bytes);
  }

-- A payload of bytes that `decode_udp` accepts gives a datagram that the types allow and whose
-- identifiers are not 0, and encoding this datagram gives the payload again: no two payloads stand
-- for one datagram.
pub encode_udp-decode_udp :
    (buf : BufMut) (m : MessageId) (p : Bytes) (d : UdpDatagram)
    → AllBytes p
    → decode_udp m p ≡ ok d
    → IsDatagram d × (d.tunnel_id ≢ 0) × (d.session_id ≢ 0) × (encode_udp buf d ≡ ok p)
encode_udp-decode_udp buf m p d bytes e =
    let h = decode_udp-Accepted m p d e in
    (
      accepted-IsDatagram m p d bytes h,
      h.tunnel_ne,
      h.session_ne,
      encode_udp-encoding buf d h.tunnel_ne h.session_ne ∙ ap ok (encoding-eq m p d bytes h),
    )
