-- ===== src/Protocol/Datagram/RoundTrip.antt =====
-- A UDP datagram is read back as it was written, and every payload that is accepted is the one
-- encoding of the datagram that it gives.
use mathlib.Core.List.{append_assoc}
use rustgo.Prelude.{
  ℕ, ◌+◌, ◌<◌, ◌≤◌, ◌≡◌, ◌≢◌, refl, ap, sym, ◌∙◌, ◌∷◌, ◌++◌, length, drop, get_or, replicate, ok,
  arith, length-append, take-append, drop-append, drop-drop, drop-cons, get_or-drop,
  take-append-drop,
}
use rustgo.Prelude.Bytes.{Bytes, to_be, slice, from_be-to_be, length-to_be, eq_bytes_refl}
use rustgo.Protocol.Limits.{udp_metadata_len}
use rustgo.Protocol.MessageId.{MessageId}
use rustgo.Protocol.Payload.Tunnel.{SocketAddress, v4, v6, UdpDatagram}
use rustgo.Protocol.Externals.{BufMut}
use rustgo.Protocol.Datagram.{
  encode_udp, decode_udp, put_source, decode_source, IsDatagram, IsSocketAddress,
}

-- A payload that is made of its six parts, each of its width.
record Layout (p tunnel session : Bytes) (family : ℕ) (address port raw : Bytes) : Type 0 where
  tunnel_eq : slice 0 4 p ≡ tunnel
  session_eq : slice 4 12 p ≡ session
  family_eq : get_or p 12 0 ≡ family
  address_eq : slice 13 29 p ≡ address
  port_eq : slice 29 31 p ≡ port
  raw_eq : drop udp_metadata_len p ≡ raw
  length_eq : length p ≡ 31 + length raw

abbrev pub joined : Bytes → Bytes → ℕ → Bytes → Bytes → Bytes → Bytes
joined tunnel session family address port raw =
    tunnel ++ (session ++ (family ∷ (address ++ (port ++ raw))))

module _ (tunnel session : Bytes) (family : ℕ) (address port raw : Bytes) (t : length tunnel ≡ 4)
    (s : length session ≡ 8) (a : length address ≡ 16) (o : length port ≡ 2) where
  abbrev from4 : Bytes
  from4 = session ++ (family ∷ (address ++ (port ++ raw)))

  abbrev whole : Bytes
  whole = joined tunnel session family address port raw

  drop4 : drop 4 whole ≡ from4
  drop4 = drop-append tunnel from4 t

  drop12 : drop 12 whole ≡ family ∷ (address ++ (port ++ raw))
  drop12 =
      sym (drop-drop 4 8 whole)
      ∙ (rw drop4 (drop-append session (family ∷ (address ++ (port ++ raw))) s))

  drop13 : drop 13 whole ≡ address ++ (port ++ raw)
  drop13 = sym (drop-drop 12 1 whole) ∙ ap (drop 1) drop12

  drop29 : drop 29 whole ≡ port ++ raw
  drop29 = sym (drop-drop 13 16 whole) ∙ (rw drop13 (drop-append address (port ++ raw) a))

  drop31 : drop 31 whole ≡ raw
  drop31 = sym (drop-drop 29 2 whole) ∙ (rw drop29 (drop-append port raw o))

  Layout-joined : Layout whole tunnel session family address port raw
  Layout-joined = record {
    tunnel_eq = take-append tunnel from4 t;
    session_eq = rw drop4 (take-append session _ s);
    family_eq = sym (get_or-drop 12 0 whole 0) ∙ ap (λ ys. get_or ys 0 0) drop12;
    address_eq = rw drop13 (take-append address _ a);
    port_eq = rw drop29 (take-append port _ o);
    raw_eq = drop31;
    length_eq = omega (
      arith,
      length-append tunnel from4,
      length-append session (family ∷ (address ++ (port ++ raw))),
      length-append address (port ++ raw),
      length-append port raw,
    );
  }

-- A payload that is long enough falls into the six parts.
pub joined-slices :
    (p : Bytes)
    → 31 ≤ length p
    → joined
        (slice 0 4 p)
        (slice 4 12 p)
        (get_or p 12 0)
        (slice 13 29 p)
        (slice 29 31 p)
        (drop 31 p)
      ≡ p
joined-slices p h =
    let tail31 : drop 31 p ≡ drop 2 (drop 29 p) = sym (drop-drop 29 2 p) in
    let tail29 : drop 29 p ≡ drop 16 (drop 13 p) = sym (drop-drop 13 16 p) in
    let tail12 : get_or p 12 0 ∷ drop 13 p ≡ drop 8 (drop 4 p) =
      sym (drop-cons 12 p 0 (omega arith)) ∙ sym (drop-drop 4 8 p) in
    ap (λ ys. slice 0 4 p ++ (slice 4 12 p ++ (get_or p 12 0 ∷ (slice 13 29 p ++ ys))))
      (ap (λ ys. slice 29 31 p ++ ys) tail31 ∙ take-append-drop 2 (drop 29 p))
    ∙ (ap (λ ys. slice 0 4 p ++ (slice 4 12 p ++ (get_or p 12 0 ∷ ys)))
          (ap (λ ys. slice 13 29 p ++ ys) tail29 ∙ take-append-drop 16 (drop 13 p))
        ∙ (ap (λ ys. slice 0 4 p ++ ys)
              (ap (λ ys. slice 4 12 p ++ ys) tail12 ∙ take-append-drop 8 (drop 4 p))
            ∙ take-append-drop 4 p))

-- The 16 bytes of the address.
abbrev pub padded : SocketAddress → Bytes
padded (v4 octets port) = octets ++ replicate 12 0
padded (v6 octets port) = octets

abbrev pub family_of : SocketAddress → ℕ
family_of (v4 octets port) = 4
family_of (v6 octets port) = 6

abbrev pub port_of : SocketAddress → ℕ
port_of (v4 octets port) = port
port_of (v6 octets port) = port

port_of-lt : (a : SocketAddress) → IsSocketAddress a → port_of a < 65536
port_of-lt (v4 octets port) h = h.2
port_of-lt (v6 octets port) h = h.2

length-padded : (a : SocketAddress) → IsSocketAddress a → length (padded a) ≡ 16
length-padded (v4 octets port) h = omega (arith, length-append octets (replicate 12 0))
length-padded (v6 octets port) h = h.0

put_source-parts :
    (buf : BufMut) (a : SocketAddress)
    → put_source buf a ≡ family_of a ∷ (padded a ++ to_be 2 (port_of a))
unfolding put_source
put_source-parts buf (v4 octets port) = rw (buf.put_u16_lem port, append_assoc)
put_source-parts buf (v6 octets port) = rw (buf.put_u16_lem port)

decode_source-padded :
    (m : MessageId) (a : SocketAddress)
    → IsSocketAddress a
    → decode_source m (family_of a) (padded a) (port_of a) ≡ ok a
unfolding decode_source
decode_source-padded m (v4 octets port) h = rw (
  drop-append octets (replicate 12 0) h.0,
  eq_bytes_refl (replicate 12 0),
  take-append octets (replicate 12 0) h.0,
)
decode_source-padded m (v6 octets port) h = refl

-- The bytes of a datagram.
abbrev pub encoding : UdpDatagram → Bytes
encoding d =
    joined (to_be 4 d.tunnel_id) (to_be 8 d.session_id) (family_of d.source) (padded d.source)
      (to_be 2 (port_of d.source)) d.payload

pub encode_udp-encoding :
    (buf : BufMut) (d : UdpDatagram)
    → d.tunnel_id ≢ 0
    → d.session_id ≢ 0
    → encode_udp buf d ≡ ok (encoding d)
unfolding encode_udp
encode_udp-encoding buf d t s =
    rw (buf.put_u32_lem, buf.put_u64_lem, put_source-parts, append_assoc) (ground arith)

encoding-Layout :
    (d : UdpDatagram)
    → IsDatagram d
    → Layout
        (encoding d)
        (to_be 4 d.tunnel_id)
        (to_be 8 d.session_id)
        (family_of d.source)
        (padded d.source)
        (to_be 2 (port_of d.source))
        d.payload
encoding-Layout d h =
    Layout-joined _ _ _ _ _ _ (length-to_be 4 d.tunnel_id) (length-to_be 8 d.session_id)
      (length-padded d.source h.source) (length-to_be 2 (port_of d.source))

decode_udp-Layout :
    (m : MessageId) (d : UdpDatagram) (p : Bytes)
    → IsDatagram d
    → d.tunnel_id ≢ 0
    → d.session_id ≢ 0
    → Layout p
        (to_be 4 d.tunnel_id)
        (to_be 8 d.session_id)
        (family_of d.source)
        (padded d.source)
        (to_be 2 (port_of d.source))
        d.payload
    → decode_udp m p ≡ ok d
unfolding decode_udp
decode_udp-Layout m d p h t s l =
    rw
      (
        l.length_eq,
        l.raw_eq,
        l.tunnel_eq,
        l.session_eq,
        l.family_eq,
        l.address_eq,
        l.port_eq,
        from_be-to_be 4 d.tunnel_id h.tunnel_id,
        from_be-to_be 8 d.session_id h.session_id,
        from_be-to_be 2 (port_of d.source) (port_of-lt d.source h.source),
        decode_source-padded m d.source h.source,
      )
      (ground (arith, h.payload))

-- A datagram that the types allow, with identifiers that are not 0, is encoded, and the encoding
-- is decoded to the same datagram.
pub decode_udp-encode_udp :
    (buf : BufMut) (m : MessageId) (d : UdpDatagram)
    → IsDatagram d
    → d.tunnel_id ≢ 0
    → d.session_id ≢ 0
    → (payload : Bytes) × (encode_udp buf d ≡ ok payload) × (decode_udp m payload ≡ ok d)
decode_udp-encode_udp buf m d h t s = (
  encoding d,
  encode_udp-encoding buf d t s,
  decode_udp-Layout m d (encoding d) h t s (encoding-Layout d h),
)

-- Only a datagram whose identifiers are not 0 is encoded.
pub encode_udp-ids :
    (buf : BufMut) (d : UdpDatagram) (p : Bytes)
    → encode_udp buf d ≡ ok p
    → (d.tunnel_id ≢ 0) × (d.session_id ≢ 0)
unfolding encode_udp
encode_udp-ids buf d p h = ground arith
