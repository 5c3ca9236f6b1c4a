-- ===== src/Protocol/Datagram/Tests.antt =====
-- The theorems on datagrams, applied to one from an IPv4 source.
use rustgo.Prelude.{◌≡◌, ◌≢◌, refl, [], ◌∷◌, ok, arith}
use rustgo.Prelude.Bytes.{Bytes, AllBytes, to_be, from_be, eq_bytes}
use rustgo.Protocol.Payload.Tunnel.{v4, UdpDatagram}
use rustgo.Protocol.MessageId
use rustgo.Protocol.Externals.{BufMut}
use rustgo.Protocol.Datagram.{encode_udp, decode_udp, IsDatagram}
use rustgo.Protocol.Datagram.RoundTrip.{decode_udp-encode_udp}
use rustgo.Protocol.Datagram.Canonical.{encode_udp-decode_udp}

abbrev writer : BufMut
writer = record {
  put_u16 = to_be 2;
  put_u32 = to_be 4;
  put_u64 = to_be 8;
  put_u16_lem = λ n. refl;
  put_u32_lem = λ n. refl;
  put_u64_lem = λ n. refl;
}

abbrev query : UdpDatagram
query = record {
  tunnel_id = 3;
  session_id = 258;
  source = v4 (127 ∷ 0 ∷ 0 ∷ 1 ∷ []) 53;
  payload = 42 ∷ 43 ∷ [];
}

abbrev query_bytes : Bytes
query_bytes =
    0 ∷ 0 ∷ 0 ∷ 3 ∷ 0 ∷ 0 ∷ 0 ∷ 0 ∷ 0 ∷ 0 ∷ 1 ∷ 2 ∷ 4 ∷ 127 ∷ 0 ∷ 0 ∷ 1 ∷ 0 ∷ 0 ∷ 0 ∷ 0 ∷ 0 ∷ 0 ∷ 0
    ∷ 0 ∷ 0 ∷ 0 ∷ 0 ∷ 0 ∷ 0 ∷ 53 ∷ 42 ∷ 43 ∷ []

query-IsDatagram : IsDatagram query
query-IsDatagram = record {
  tunnel_id = omega arith;
  session_id = omega arith;
  source = (refl, ground arith, omega arith);
  payload = omega arith;
  bytes = ground arith;
}

decode_udp-encode_udp_example :
    (payload : Bytes) × (encode_udp writer query ≡ ok payload)
    × (decode_udp MessageId.udp_datagram payload ≡ ok query)
decode_udp-encode_udp_example =
    decode_udp-encode_udp writer MessageId.udp_datagram query query-IsDatagram (omega arith)
      (omega arith)

query_bytes-AllBytes : AllBytes query_bytes
query_bytes-AllBytes = ground arith

decoded_query : decode_udp MessageId.udp_datagram query_bytes ≡ ok query
unfolding decode_udp from_be eq_bytes
decoded_query = refl

encode_udp-decode_udp_example :
    IsDatagram query
    × (query.tunnel_id ≢ 0)
    × (query.session_id ≢ 0)
    × (encode_udp writer query ≡ ok query_bytes)
encode_udp-decode_udp_example =
    encode_udp-decode_udp writer MessageId.udp_datagram query_bytes query query_bytes-AllBytes
      decoded_query
