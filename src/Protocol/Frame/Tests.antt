-- ===== src/Protocol/Frame/Tests.antt =====
-- The theorems on frames, applied to a heartbeat. Its stand-in codec writes the sequence number in
-- one byte; no other payload is serialized here.
use rustgo.Prelude.{◌≡◌, ◌≢◌, ◌↔◌, refl, ap, Option, none, some, [], ◌∷◌, ◌++◌, take, ok, arith}
use rustgo.Prelude.Bytes.{Bytes, to_be, from_be, eq_bytes}
use rustgo.Protocol.Version.{ProtocolVersion, new}
use rustgo.Protocol.MessageId
use rustgo.Protocol.Payload.Tunnel.{Heartbeat}
use rustgo.Protocol.Message
use rustgo.Protocol.Message.{Message}
use rustgo.Protocol.Externals.{Codec, BufMut, Postcard}
use rustgo.Protocol.Frame.{
  Frame, FrameCodec, encode, decode, decode_exact, validate_payload_length, validate_flags,
  put_header, inspect_header, header_fields,
}
use rustgo.Protocol.PayloadCodec.{encode_payload, decode_payload, IsTyped}
use rustgo.Protocol.Accepts.{accepts_heartbeat}
use rustgo.Protocol.Frame.RoundTrip.{frame, decode-encode}
use rustgo.Protocol.Frame.Streaming.{decode-append, decode-take-encode}
use rustgo.Protocol.Frame.Exact.{Took, decode_kept, decode-Took, decode_exact-decode}

abbrev writer : BufMut
writer = record {
  put_u16 = to_be 2;
  put_u32 = to_be 4;
  put_u64 = to_be 8;
  put_u16_lem = λ n. refl;
  put_u32_lem = λ n. refl;
  put_u64_lem = λ n. refl;
}

none-ne_some : {A : Type 0} {a : A} → none ≢ some a
none-ne_some h = cc

abbrev no_codec : {A : Type 0} → Codec A
no_codec = record {
  to_allocvec = λ a. none;
  take_from_bytes = λ b. none;
  take-to = λ a b h. absurd (none-ne_some h);
}

abbrev take_heartbeat : Bytes → Option (Heartbeat × Bytes)
take_heartbeat [] = none
take_heartbeat (b ∷ bs) = some (record { sequence = b }, bs)

take-to_heartbeat :
    (h : Heartbeat) (b : Bytes) → some (h.sequence ∷ []) ≡ some b → take_heartbeat b ≡ some (h, [])
take-to_heartbeat h [] e = cc
take-to_heartbeat h (b ∷ bs) e = ground arith

abbrev heartbeat_codec : Codec Heartbeat
heartbeat_codec = record {
  to_allocvec = λ h. some (h.sequence ∷ []);
  take_from_bytes = take_heartbeat;
  take-to = take-to_heartbeat;
}

abbrev plain : Postcard
plain = record {
  client_hello = no_codec;
  server_challenge = no_codec;
  client_authenticate = no_codec;
  auth_result = no_codec;
  register_tunnels = no_codec;
  tunnel_results = no_codec;
  open_tcp_stream = no_codec;
  tcp_stream_ready = no_codec;
  heartbeat = heartbeat_codec;
  error = no_codec;
  open_udp_channel = no_codec;
  data_channel_bind = no_codec;
  udp_session_retired = no_codec;
  observation_grant_request = no_codec;
  server_notice = no_codec;
  peer_identity_binding = no_codec;
  peer_identity_lookup = no_codec;
  punch_grant = no_codec;
  telemetry_report = no_codec;
  managed_config_request = no_codec;
  managed_config_snapshot = no_codec;
  managed_config_report = no_codec;
  managed_config_update = no_codec;
  managed_config_update_result = no_codec;
  enrollment_request = no_codec;
  enrollment_result = no_codec;
}

abbrev codec : FrameCodec
codec = record { max_payload = 65536 }

abbrev beat : Message
beat = Message.heartbeat record { sequence = 7 }

abbrev version : ProtocolVersion
version = new 1 5

abbrev beat_bytes : Bytes
beat_bytes = b'R' ∷ b'S' ∷ b'G' ∷ b'O' ∷ 0 ∷ 1 ∷ 0 ∷ 5 ∷ 0 ∷ 10 ∷ 0 ∷ 0 ∷ 0 ∷ 0 ∷ 0 ∷ 1 ∷ 7 ∷ []

encoded : encode codec writer plain version 0 beat ≡ ok beat_bytes
unfolding encode validate_flags encode_payload validate_payload_length MessageId.max_payload
    Message.id put_header to_be MessageId.as_u16
encoded = refl

beat-IsTyped : IsTyped beat
unfolding accepts_heartbeat
beat-IsTyped = refl

decode-encode_example :
    decode codec plain (beat_bytes ++ 1 ∷ 2 ∷ []) ≡ (ok (some (frame version beat)), 1 ∷ 2 ∷ [])
decode-encode_example =
    decode-encode codec writer plain version 0 beat beat_bytes (1 ∷ 2 ∷ [])
      (omega arith, omega arith) (omega arith) beat-IsTyped encoded

decoded_beat : decode codec plain beat_bytes ≡ (ok (some (frame version beat)), [])
unfolding decode inspect_header header_fields eq_bytes MessageId.try_from from_be validate_flags
    validate_payload_length MessageId.max_payload decode_payload accepts_heartbeat
decoded_beat = refl

answered : (decode codec plain beat_bytes).0 ≢ ok none
answered e = cc (ap (λ r. r.0) decoded_beat, e)

decode-append_example :
    decode codec plain (beat_bytes ++ 9 ∷ [])
    ≡ ((decode codec plain beat_bytes).0, (decode codec plain beat_bytes).1 ++ 9 ∷ [])
decode-append_example = decode-append codec plain beat_bytes (9 ∷ []) answered

decode-take-encode_example : decode codec plain (take 16 beat_bytes) ≡ (ok none, take 16 beat_bytes)
decode-take-encode_example =
    decode-take-encode codec writer plain version 0 beat beat_bytes 16 (omega arith, omega arith)
      (omega arith) beat-IsTyped encoded (omega arith)

part_beat : decode codec plain (take 16 beat_bytes) ≡ (ok none, take 16 beat_bytes)
unfolding decode inspect_header header_fields eq_bytes MessageId.try_from from_be validate_flags
    validate_payload_length MessageId.max_payload decode_payload accepts_heartbeat
part_beat = refl

no_frame : (f : Frame) → (decode codec plain (take 16 beat_bytes)).0 ≢ ok (some f)
no_frame f e = cc (ap (λ r. r.0) part_beat, e)

decode_kept_example : (decode codec plain (take 16 beat_bytes)).1 ≡ take 16 beat_bytes
decode_kept_example = decode_kept codec plain (take 16 beat_bytes) no_frame

decode-Took_example :
    Took codec plain (frame version beat) beat_bytes (decode codec plain beat_bytes).1
decode-Took_example =
    decode-Took codec plain beat_bytes (frame version beat) (ap (λ r. r.0) decoded_beat)

decode_exact-decode_example :
    (decode_exact codec plain beat_bytes ≢ none)
    × ((f : Frame)
        → (decode_exact codec plain beat_bytes ≡ some (ok f))
          ↔ (decode codec plain beat_bytes ≡ (ok (some f), [])))
decode_exact-decode_example = decode_exact-decode codec plain beat_bytes
